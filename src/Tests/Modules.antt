-- ===== src/Tests/Modules.antt =====
-- A trial of a builtin module, and the decisions on the modules of a lock.
use mathlib.Core.Path.{subst}
use adaptive_harness.Prelude.{
  String, ◌≡◌, refl, sym, ap, ◌∙◌, ◌↔◌, true, false, List, [], ◌∷◌, Option, none, some, ok, err,
  value_error, if◌then◌else◌, ◌=ˢ◌, ok_path,
}
use adaptive_harness.Init.{
  Bytes, Disk, put, State, returned, PlannedChange, JournalStatus, Format, journal_of, apply,
}
use adaptive_harness.Init.Atomic.{left}
use adaptive_harness.Modules.Planned.{plan_applied}
use adaptive_harness.Tests.Transactions.{coding, status_bytes, bytes_status, working, decode-encode}
use adaptive_harness.Modules.{
  ActivationPolicy, ActivationState, ModuleManifest, ActivationDecision, Source, LockedModule,
  TrialState, TrialResult, Trial, Document, ModuleHost, LockFormat, tdd_guidance, task_summary,
  decide_activation, is_activated, lock_path, lock_name, plan_with, trial_manifest, load_lock,
  start_trial, record_result, promote, rollback, enter, with_result, new_trial, locked_of,
}
use adaptive_harness.Modules.Budget.{Activable, decide_activation_iff}
use adaptive_harness.Modules.Trials.{sound_trials}
use adaptive_harness.Modules.Lifecycle.{Step, Steps, nothing, next, Steps_sound}
use adaptive_harness.Modules.Lookups.{lookup}
use adaptive_harness.Modules.Rollback.{Use, Uses, trial_rollback}

abbrev pub host : ModuleHost
host = record {
  runtime_major = 0;
  sha256 = λ m. m.id;
  relative_to_root = λ path. none;
  read_manifest = λ location. none;
}

abbrev pub empty : Document
empty = record { modules = []; templates = []; trials = [] }

abbrev good : TrialResult
good = record { task_id = "t1"; evidence_ref = "e1"; beneficial = true; overhead_ms = 100 }

abbrev slow : TrialResult
slow = record { task_id = "t1"; evidence_ref = "e1"; beneficial = true; overhead_ms = 2001 }

abbrev running : Trial
running = new_trial "task-summary" "1" 1 task_summary none

abbrev with_trial : Trial → Document
with_trial t = record {
  modules = locked_of host.sha256 task_summary Source.builtin ActivationPolicy.manual none ∷ [];
  templates = [];
  trials = t ∷ [];
}

starts : start_trial host "task-summary" 1 empty ≡ ok (with_trial running)
unfolding start_trial adaptive_harness.Modules.builtin_modules adaptive_harness.Executor.decimal
starts = refl

abbrev tried : Trial
tried = with_result good running

records : record_result "task-summary" good (with_trial running) ≡ ok (with_trial tried)
unfolding record_result
records = refl

abbrev kept : Trial
kept = enter TrialState.promoted tried

promotes : promote "task-summary" (with_trial tried) ≡ ok (with_trial kept)
unfolding promote
promotes = refl

abbrev undone : Document
undone = record { modules = []; templates = []; trials = enter TrialState.rolled_back kept ∷ [] }

rolls_back : rollback "task-summary" (with_trial kept) ≡ ok undone
unfolding rollback
rolls_back = refl

abbrev lifecycle : Steps host empty undone
lifecycle =
    next
      (next
        (next (next nothing (Step.started "task-summary" 1 starts))
          (Step.recorded "task-summary" good records))
        (Step.promoted "task-summary" promotes))
      (Step.rolled_back "task-summary" rolls_back)

Steps_sound_example : sound_trials undone ≡ true
Steps_sound_example = Steps_sound host empty lifecycle refl

named :
    (r : ModuleManifest × Source × Option String)
    → trial_manifest host "task-summary" (lookup "task-summary" empty.modules) ≡ ok r
    → (r.0.id =ˢ "task-summary") ≡ true
unfolding adaptive_harness.Modules.resolve_manifest adaptive_harness.Modules.builtin_modules
named r h = subst (λ x. (x.0.id =ˢ "task-summary") ≡ true) (ok_path h) refl

trial_rollback_example : lookup "task-summary" undone.modules ≡ lookup "task-summary" empty.modules
trial_rollback_example =
    trial_rollback host "task-summary" 1 empty named starts
      (Uses.next (Uses.next Uses.nothing (Use.recorded good records)) (Use.promoted promotes))
      rolls_back "task-summary"

abbrev spent : Trial
spent = with_result slow running

overspends : record_result "task-summary" slow (with_trial running) ≡ ok (with_trial spent)
unfolding record_result
overspends = refl

-- A trial that went over its budget is closed: rolling it back is refused.
overspent_closed : rollback "task-summary" (with_trial spent) ≡ err value_error
unfolding rollback
overspent_closed = refl

decide_activation_iff_example :
    let d =
      decide_activation task_summary true ("task-complete" ∷ []) ("module-execution" ∷ []) true 5 in
    ((d.state ≡ ActivationState.activated)
      ↔ Activable task_summary true ("task-complete" ∷ []) ("module-execution" ∷ []) true 5)
    × (d.context ≡ (if is_activated d.state then task_summary.content else none))
decide_activation_iff_example =
    decide_activation_iff task_summary true ("task-complete" ∷ []) ("module-execution" ∷ []) true 5

abbrev lock : LockFormat
lock = record { read_lock = λ content. some (with_trial running); write_lock = λ d. [] }

abbrev pub disk : Disk
disk = put lock_path [] (λ p. none)

abbrev decided : List ActivationDecision
decided =
    record {
      module_id = "tdd-guidance";
      state = ActivationState.installed;
      reason = "not enabled";
      context = none;
    }
    ∷ record {
      module_id = "task-summary";
      state = ActivationState.activated;
      reason = "activation conditions satisfied";
      context = none;
    }
    ∷ []

-- The text of the two locks that the example writes and reads.
abbrev bytes_of : List LockedModule → Bytes
bytes_of [] = 1 ∷ []
bytes_of _ = []

abbrev document_of : Bytes → Document
document_of [] = with_trial kept
document_of _ = undone

abbrev two_locks : LockFormat
two_locks = record {
  read_lock = λ content. some (document_of content);
  write_lock = λ d. bytes_of d.modules;
}

reads :
    (content : Bytes) (d d' : Document)
    → load_lock host two_locks disk ≡ ok (content, d)
    → rollback "task-summary" d ≡ ok d'
    → two_locks.read_lock (two_locks.write_lock d') ≡ some d'
unfolding load_lock
reads content d d' loads rolls =
    let kept_lock : with_trial kept ≡ d = ap (λ x. x.1) (ok_path loads) in
    let after : undone ≡ d' =
      ok_path (sym rolls_back ∙ ap (rollback "task-summary") kept_lock ∙ rolls) in
    subst (λ x. two_locks.read_lock (two_locks.write_lock x) ≡ some x) after refl

abbrev changes : List PlannedChange
changes = record { path = lock_name; before = some []; after = 1 ∷ [] } ∷ []

plans : plan_with host two_locks disk (rollback "task-summary") ≡ ok changes
unfolding rollback load_lock adaptive_harness.Modules.plan
plans = refl

abbrev format : Format
format = record coding {
  write_journal = λ journal. status_bytes journal.status;
  read_journal = λ content. some (journal_of coding "tx" true changes (bytes_status content));
}

journals :
    (status : JournalStatus)
    → format.read_journal (format.write_journal (journal_of format "tx" true changes status))
      ≡ some (journal_of format "tx" true changes status)
journals JournalStatus.preparing = refl
journals JournalStatus.staged = refl

abbrev ended : State
ended =
    left (apply format (λ p. false) working "tx" true changes (record { clock = 0; disk = disk }))

applies :
    apply format (λ p. false) working "tx" true changes (record { clock = 0; disk = disk })
    ≡ (returned tt, ended)
unfolding apply adaptive_harness.Init.valid_target adaptive_harness.Paths.parse_path
applies = refl

plan_applied_example :
    (content : Bytes) × (d : Document) × (d' : Document) × (load_lock host two_locks disk
      ≡ ok (content, d))
    × (rollback "task-summary" d ≡ ok d')
    × (load_lock host two_locks ended.disk ≡ ok (two_locks.write_lock d', d'))
plan_applied_example =
    plan_applied host two_locks format (λ content. ap some (decode-encode content)) (λ p. false)
      "tx" true working changes journals (record { clock = 0; disk = disk }) refl
      (rollback "task-summary") {s' = ended} reads plans applies
