-- ===== src/Modules/Trials.antt =====
-- The trials of a lock: what holds of each, and that a module has one open trial at most.
use adaptive_harness.Prelude.{
  ◌+◌, String, ◌≡◌, refl, sym, ap, ◌∙◌, inl, inr, Bool, true, false, not, ◌&&◌, ◌||◌, List, [], ◌∷◌,
  ◌++◌, map, some, arith, leb, ◌==◌, ◌=ˢ◌, length, any, all, contains, is_nodup, Bool-cases, eq_iff,
  any-append, length-append,
}
use adaptive_harness.Modules.{
  TrialState, TrialResult, Trial, Document, find_last, update_last, is_of, is_open, is_trial,
  with_result, has_result, total_overhead, shows_benefit,
}
use adaptive_harness.Modules.Updates.{update_last-all, update_last-any}

abbrev pub is_promoted : TrialState → Bool
is_promoted TrialState.promoted = true
is_promoted _ = false

abbrev task_ids : List TrialResult → List String
task_ids results = map (λ r. r.task_id) results

-- The results and the tasks that remain add up to the tasks of the trial, no task counts twice, an open
-- trial is within its runtime budget, and a promoted one has all results, most of them beneficial.
abbrev pub is_sound : Trial → Bool
is_sound t =
    length t.results + t.remaining_tasks == t.matching_tasks
    && is_nodup (task_ids t.results)
    && (not (is_open t.state) || leb (total_overhead t.results) t.cost_budget.runtime_ms)
    && (not (is_promoted t.state) || t.remaining_tasks == 0 && shows_benefit t.results)

abbrev is_open_of : String → Trial → Bool
is_open_of id t = is_of id t && is_open t.state

abbrev pub one_open : List Trial → Bool
one_open [] = true
one_open (t ∷ ts) = not (is_open t.state && any (is_open_of t.module_id) ts) && one_open ts

abbrev pub sound_trials : Document → Bool
sound_trials d = all is_sound d.trials && one_open d.trials

one_open-update_last :
    (q : Trial → Bool) (f : Trial → Trial) (ts : List Trial)
    → ((t : Trial) → (f t).module_id ≡ t.module_id)
    → ((t : Trial) → q t ≡ true → is_open t.state ≡ false → is_open (f t).state ≡ false)
    → one_open ts ≡ true
    → one_open (update_last q f ts) ≡ true
one_open-update_last q f [] same keeps h = refl
one_open-update_last q f (t ∷ ts) same keeps h =
    let kept : (x : Trial)
        → q x ≡ true
        → is_open_of t.module_id x ≡ false
        → is_open_of t.module_id (f x) ≡ false =
      λ x e n. rw (same x) (ground (arith, keeps x)) in
    let others = update_last-any q (is_open_of t.module_id) f ts kept in
    let rest = one_open-update_last q f ts same keeps in
    elim (Bool-cases (any q ts)) [
      | inl e ↦ rw e (ground (arith, others, rest))
      | inr n ↦ rw n (elim (Bool-cases (q t)) [
        | inl e ↦ rw (e, same t) (ground (arith, keeps t))
        | inr m ↦ rw m h
      ])
    ]

pub one_open-append :
    (ts : List Trial) (t : Trial)
    → any (is_open_of t.module_id) ts ≡ false
    → one_open ts ≡ true
    → one_open (ts ++ t ∷ []) ≡ true
one_open-append [] t n h = ground arith
one_open-append (s ∷ ts) t n h =
    let rest = one_open-append ts t (ground arith) (ground arith) in
    rw (any-append (is_open_of s.module_id) ts (t ∷ []), rest)
      (ground (arith, eq_iff s.module_id t.module_id, eq_iff t.module_id s.module_id))

contains-append :
    (ids : List String) (id x : String) → contains (ids ++ id ∷ []) x ≡ (contains ids x || id =ˢ x)
contains-append [] id x = ground arith
contains-append (y ∷ ids) id x = ground (arith, contains-append ids id x)

is_nodup-append :
    (ids : List String) (id : String)
    → contains ids id ≡ false
    → is_nodup ids ≡ true
    → is_nodup (ids ++ id ∷ []) ≡ true
is_nodup-append [] id n h = refl
is_nodup-append (x ∷ ids) id n h =
    let rest = is_nodup-append ids id (ground arith) (ground arith) in
    ground (arith, contains-append ids id x, eq_iff x id, eq_iff id x)

task_ids-append :
    (rs : List TrialResult) (r : TrialResult)
    → task_ids (rs ++ r ∷ []) ≡ task_ids rs ++ r.task_id ∷ []
task_ids-append [] r = refl
task_ids-append (x ∷ rs) r = ap (λ ids. x.task_id ∷ ids) (task_ids-append rs r)

any-has_result :
    (id : String) (rs : List TrialResult) → any (has_result id) rs ≡ contains (task_ids rs) id
any-has_result id [] = refl
any-has_result id (r ∷ rs) = ap (λ b. r.task_id =ˢ id || b) (any-has_result id rs)

-- Recording a result keeps a trial sound.
pub with_result-is_sound :
    (r : TrialResult) (t : Trial)
    → is_trial t.state ≡ true
    → (t.remaining_tasks == 0) ≡ false
    → any (has_result r.task_id) t.results ≡ false
    → is_sound t ≡ true
    → is_sound (with_result r t) ≡ true
with_result-is_sound r t state more fresh h =
    let distinct : is_nodup (task_ids (t.results ++ r ∷ [])) ≡ true =
      rw (task_ids-append t.results r) (
        is_nodup-append (task_ids t.results) r.task_id
          (sym (any-has_result r.task_id t.results) ∙ fresh) (ground arith)) in
    ground (arith, distinct, length-append t.results (r ∷ []))

pub with_result-closed :
    (r : TrialResult) (t : Trial)
    → is_open t.state ≡ false
    → is_open (with_result r t).state ≡ false
with_result-closed r t h = ground arith

pub with_result-module_id :
    (r : TrialResult) (t : Trial) → (with_result r t).module_id ≡ t.module_id
with_result-module_id r t = ground arith

-- A change of the last trial that passes a test keeps the trials sound.
pub update_trials :
    (q : Trial → Bool) (f : Trial → Trial) (d d' : Document) {t : Trial}
    → find_last q d.trials ≡ some t
    → d'.trials ≡ update_last q f d.trials
    → (is_sound t ≡ true → is_sound (f t) ≡ true)
    → ((x : Trial) → (f x).module_id ≡ x.module_id)
    → ((x : Trial) → q x ≡ true → is_open x.state ≡ false → is_open (f x).state ≡ false)
    → sound_trials d ≡ true
    → sound_trials d' ≡ true
update_trials q f d d' found e keeps same closed h =
    let all_sound = update_last-all q is_sound f d.trials found keeps in
    let one = one_open-update_last q f d.trials same closed in rw e (ground (arith, all_sound, one))
