-- ===== src/Eval/Storage/Reading.antt =====
-- Saving a run and loading runs, by src/opspilot/eval/storage.py.
use opspilot_sre_incident_re.Prelude.{
  ℕ, ◌≡◌, refl, sym, ap, ◌∙◌, String, true, false, some, List, [], ◌∷◌, str_eq, if◌then◌else◌, ok,
  Bool-cases, inl, inr, eq_iff,
}
use opspilot_sre_incident_re.Eval.Aggregate.{EvalRun}
use opspilot_sre_incident_re.Eval.Storage.{
  File, RunsDir, RunCodec, ReadsBack, files_of, write_text, read_text, save_run, load_text,
  load_run_by_label,
}

-- One text cannot be equal to two different ones.
unequal_to : (a b c : String) → str_eq a c ≡ true → str_eq a b ≡ false → str_eq b c ≡ false
unequal_to a b c same differs = elim (Bool-cases (str_eq b c)) [
  | inl also ↦
      let e : a ≡ b = (eq_iff a c).0 same ∙ sym ((eq_iff b c).0 also) in
      let found : str_eq a b ≡ true = (eq_iff a b).1 e in cc
  | inr apart ↦ apart
]

-- What a label reads behind a write.
pub read-write :
    (label : String) (file : File) (files : List File)
    → read_text label (write_text file files)
      ≡ (if str_eq file.label label then some file.content else read_text label files)
read-write label file [] = refl
read-write label file (f ∷ files) = elim (Bool-cases (str_eq f.label file.label)) [
  | inl same ↦ elim (Bool-cases (str_eq file.label label)) [
    | inl wanted ↦ rw same (rw wanted refl)
    | inr other ↦
        let e : f.label ≡ file.label = (eq_iff f.label file.label).0 same in
        let also : str_eq f.label label ≡ false = ap (λ x. str_eq x label) e ∙ other in
        rw same (rw other (rw also refl))
  ]
  | inr differs ↦ elim (Bool-cases (str_eq f.label label)) [
    | inl wanted ↦
        let other : str_eq file.label label ≡ false =
          unequal_to f.label file.label label wanted differs in
        rw differs (rw wanted (rw other refl))
    | inr later ↦ rw differs (rw later (read-write label file files))
  ]
]

-- If the codec reads back what it writes for a run, loading by a label behind a save gives the saved run
-- if the label is the run's, and for every other label what loading gave before the save, an
-- exception or an absent run included.
pub load_run_by_label-save_run :
    (codec : RunCodec) (now : ℕ) (run : EvalRun) (label : String) (runs_dir : RunsDir)
    → ReadsBack codec run
    → load_run_by_label codec label (save_run codec now run runs_dir) ≡ (
        if str_eq run.run_label label
        then ok (some run)
        else load_run_by_label codec label runs_dir)
unfolding load_run_by_label save_run
load_run_by_label-save_run codec now run label runs_dir lawful =
    let file : File = record {
      label = run.run_label;
      mtime = now;
      content = codec.model_dump_json run;
    } in
    let step = ap (load_text codec) (read-write label file (files_of runs_dir)) in
    elim (Bool-cases (str_eq run.run_label label)) [
      | inl wanted ↦ step ∙ rw wanted (rw (lawful) refl)
      | inr other ↦ step ∙ rw other refl
    ]
