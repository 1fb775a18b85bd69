-- ===== src/Eval/Storage.antt =====
-- src/opspilot/eval/storage.py: runs as files of a directory, named by their labels. The text of a
-- run in JSON and its parsing are Pydantic's, the parameter `RunCodec`. A label holds no "/".
pub mod Reading
use opspilot_sre_incident_re.Prelude.{
  ℕ, ◌≡◌, String, Option, none, some, List, [], ◌∷◌, map, str_eq, ltb, if◌then◌else◌, Result, ok,
  err,
}
use opspilot_sre_incident_re.Eval.Aggregate.{EvalRun}

-- A file: the label that it is named by, the time of its last change, and its text.
pub record File : Type 0 where
  pub label : String
  pub mtime : ℕ
  pub content : String

-- The directory, none if it is not there, with its files in the order in which they are listed.
abbrev pub RunsDir : Type 0
RunsDir = Option (List File)

-- `model_dump_json` and `model_validate_json`.
pub record RunCodec : Type 0 where
  pub model_dump_json : EvalRun → String
  pub model_validate_json : String → Result String EvalRun

-- Pydantic reads back what it wrote for this run.
abbrev pub ReadsBack : RunCodec → EvalRun → Type 0
ReadsBack codec run = codec.model_validate_json (codec.model_dump_json run) ≡ ok run

abbrev pub files_of : RunsDir → List File
files_of none = []
files_of (some files) = files

-- `write_text`: a file of that name is replaced where it stands.
abbrev pub write_text : File → List File → List File
write_text file [] = file ∷ []
write_text file (f ∷ files) =
    if str_eq f.label file.label then file ∷ files else f ∷ write_text file files

abbrev pub read_text : String → List File → Option String
read_text label [] = none
read_text label (f ∷ files) = if str_eq f.label label then some f.content else read_text label files

-- Put into a list that is sorted newest first, behind what is newer.
abbrev pub by_time : File → List File → List File
by_time file [] = file ∷ []
by_time file (f ∷ files) =
    if ltb file.mtime f.mtime then f ∷ by_time file files else file ∷ f ∷ files

-- `sorted(..., key=mtime, reverse=True)`, which keeps the order of equals.
abbrev pub newest_first : List File → List File
newest_first [] = []
newest_first (f ∷ files) = by_time f (newest_first files)

-- `f.stem`; a name of the extension alone is its own stem.
abbrev pub stem : File → String
stem f = if str_eq f.label "" then ".json" else f.label

unfoldable pub list_run_labels : RunsDir → List String
list_run_labels runs_dir = map stem (newest_first (files_of runs_dir))

module _ (codec : RunCodec) where
  -- `save_run`, at a time.
  unfoldable pub save_run : ℕ → EvalRun → RunsDir → RunsDir
  save_run now run runs_dir = some (
      write_text
        (record { label = run.run_label; mtime = now; content = codec.model_dump_json run })
        (files_of runs_dir))

  -- `load_run` of the path that a label names.
  unfoldable pub load_run : String → RunsDir → Result String EvalRun
  load_run label runs_dir = elim (read_text label (files_of runs_dir)) [
    | none ↦ err "FileNotFoundError"
    | some content ↦ codec.model_validate_json content
  ]

  -- `load_run` of a text that was read; a text that does not parse is an exception.
  abbrev pub load_text : Option String → Result String (Option EvalRun)
  load_text none = ok none
  load_text (some content) = elim (codec.model_validate_json content) [
    | ok run ↦ ok (some run)
    | err e ↦ err e
  ]

  unfoldable pub load_run_by_label : String → RunsDir → Result String (Option EvalRun)
  load_run_by_label label runs_dir = load_text (read_text label (files_of runs_dir))
