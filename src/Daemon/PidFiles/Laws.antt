-- ===== src/Daemon/PidFiles/Laws.antt =====
-- What is written to a PID file is read back.
use offckb.Base.{
  ℕ, suc, ◌≡◌, ◌≢◌, ◌∙◌, refl, sym, inl, inr, ap, Option, none, some, [], ◌∷◌, list_eqb,
  Option-cases,
}
use offckb.Base.Text.{Text, text, trim}
use offckb.Value.{pos, Number, integer, Value, null, bool, num, str, arr, obj, lookup}
use offckb.Value.Paths.{get_key}
use offckb.Daemon.PidFiles.{
  Platform, PidMetadata, positive, metadata_value, write_pid_file, read_pid_file, read_trimmed,
  read_metadata, or_epoch, metadata_of,
}

-- What the program relies on of `JSON` and `Number` for a record: the printed record is parsed as it
-- was, with blanks around it or without, it is not empty, and it is no number.
pub record IsPlatform (p : Platform) (m : PidMetadata) : Type 0 where
  pub parse_print : p.parse (trim (write_pid_file p m)) ≡ some (metadata_value m)
  pub print_no_number : positive (p.to_number (trim (write_pid_file p m))) ≡ none
  pub print_some : trim (write_pid_file p m) ≢ []
  pub number_of_number : (n : Number) → p.number_of (some (num n)) ≡ n

read_trimmed-written :
    (p : Platform) (raw : Text) (v : Value)
    → raw ≢ []
    → positive (p.to_number raw) ≡ none
    → p.parse raw ≡ some v
    → read_trimmed p raw ≡ some (read_metadata p (some v))
read_trimmed-written p [] v some_text no_number parses = absurd (some_text refl)
read_trimmed-written p (c ∷ s) v some_text no_number parses = rw (no_number, parses) refl

-- The members of a record that was parsed, one lemma each.
pid-metadata : (m : PidMetadata) → get_key (text "pid") (metadata_value m) ≡ some (num m.pid)
unfolding get_key lookup text list_eqb
pid-metadata m = refl

script-metadata :
    (m : PidMetadata) → get_key (text "scriptPath") (metadata_value m) ≡ some (str m.script_path)
unfolding get_key lookup text list_eqb
script-metadata m = refl

started-metadata :
    (m : PidMetadata) → get_key (text "startedAt") (metadata_value m) ≡ some m.started_at
unfolding get_key lookup text list_eqb
started-metadata m = refl

status-metadata : (m : PidMetadata) → get_key (text "status") (metadata_value m) ≡ m.status
unfolding get_key lookup text list_eqb
status-metadata m = elim (Option-cases m.status) [ inl e ↦ rw e refl | inr (v, e) ↦ rw e refl ]

or_epoch-some : (v : Value) → v ≢ null → or_epoch (some v) ≡ v
or_epoch-some null h = absurd (h refl)
or_epoch-some (bool b) h = refl
or_epoch-some (num n) h = refl
or_epoch-some (str s) h = refl
or_epoch-some (arr vs) h = refl
or_epoch-some (obj fs) h = refl

metadata_of-written :
    (m : PidMetadata) (n : ℕ) (pid : Option ℕ) (script : Option Value)
    → m.pid ≡ integer (pos (suc n))
    → m.started_at ≢ null
    → pid ≡ some (suc n)
    → script ≡ some (str m.script_path)
    → metadata_of pid script (metadata_value m) ≡ m
metadata_of-written m n pid script names starts is_pid is_script = rw is_pid (
    rw is_script (λ i. record {
      pid = sym names i;
      script_path = m.script_path;
      started_at = (ap or_epoch (started-metadata m) ∙ or_epoch-some m.started_at starts) i;
      status = status-metadata m i;
    }))

-- A record of a daemon, whose process has a positive number and whose start is not null, is read
-- back as it was written, its status included.
pub read_pid_file-write_pid_file :
    (p : Platform) (n : ℕ) (m : PidMetadata)
    → IsPlatform p m
    → m.pid ≡ integer (pos (suc n))
    → m.started_at ≢ null
    → read_pid_file p (some (write_pid_file p m)) ≡ some m
unfolding read_pid_file
read_pid_file-write_pid_file p n m h names starts =
    read_trimmed-written p (trim (write_pid_file p m)) (metadata_value m) h.print_some
      h.print_no_number h.parse_print
    ∙ ap some (
        metadata_of-written m n _ _ names starts
          (ap (λ v. positive (p.number_of v)) (pid-metadata m)
            ∙ ap positive (h.number_of_number m.pid ∙ names))
          (script-metadata m))
