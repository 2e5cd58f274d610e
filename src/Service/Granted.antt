-- ===== src/Service/Granted.antt =====
-- A granted approval is among those that the next run of its capability is given.
use mathlib.Core.Path.{subst}
use adaptive_harness.Prelude.{
  ℕ, String, ◌≡◌, refl, sym, ap, ◌∙◌, inl, inr, Bool, true, List, [], ◌∷◌, ◌++◌, some, eq_refl, pos,
  Bool-cases, ok, value_error, >>=-eq-ok, guard-eq-ok, ok_path,
}
use adaptive_harness.Paths.{parse_path, show_path}
use adaptive_harness.Json.{value_eq}
use adaptive_harness.Store.{TaskEvent, TaskRecord, Files, load, append_event}
use adaptive_harness.Store.Commits.{append_event-Commit, load-Commit}
use adaptive_harness.Store.History.{with_event}
use adaptive_harness.Gateway.{ScopedApproval, valid_approval, records_text}
use adaptive_harness.Service.{
  Clock, approval_payload, approval_from_payload, Place, Stores, files_at, with_files, store_for,
  ServiceFacts, same_approval_scope, plan_approval, grant_approval, approvals_in,
  recorded_approvals,
}
use adaptive_harness.Service.Payloads.{from_payload-payload}

pub files_at-with_files :
    (place : Place) (files : Files) (stores : Stores)
    → files_at place (with_files place files stores) ≡ files
files_at-with_files Place.in_current files stores = refl
files_at-with_files Place.in_legacy files stores = refl

module _ (digest : TaskRecord → String) (isalnum : ℕ → Bool) (clock : Clock)
    (facts : ServiceFacts) where
  -- One event more, which grants the approval.
  approvals_in-append :
      (id : String) (events : List TaskEvent) (ev : TaskEvent) (old : List ScopedApproval)
      (a : ScopedApproval)
      → records_text "approval.granted" "capability_id" id ev ≡ true
      → approval_from_payload clock isalnum ev.payload ≡ ok a
      → approvals_in digest isalnum clock facts id events ≡ ok old
      → approvals_in digest isalnum clock facts id (events ++ ev ∷ []) ≡ ok (old ++ a ∷ [])
  unfolding approvals_in
  approvals_in-append id [] ev old a matches reads h =
      subst (λ xs. approvals_in digest isalnum clock facts id (ev ∷ []) ≡ ok (xs ++ a ∷ []))
        (ok_path h) (rw (matches, reads) refl)
  approvals_in-append id (e ∷ events) ev old a matches reads h =
      elim (Bool-cases (records_text "approval.granted" "capability_id" id e)) [
        | inr n ↦ rw n (approvals_in-append id events ev old a matches reads (rw n at h))
        | inl y ↦
            let (b, decodes, h₁) =
              >>=-eq-ok (approval_from_payload clock isalnum e.payload) _ (rw y at h) in
            let (rest, others, h₂) =
              >>=-eq-ok (approvals_in digest isalnum clock facts id events) _ h₁ in
            let after = approvals_in-append id events ev rest a matches reads others in
            rw (y, decodes, after) (ap (λ xs. ok (xs ++ a ∷ [])) (ok_path h₂))
      ]

  granted_matches :
      (a : ScopedApproval) (ev : TaskEvent)
      → ev.type ≡ "approval.granted"
      → ev.payload ≡ approval_payload clock a
      → records_text "approval.granted" "capability_id" a.capability_id ev ≡ true
  unfolding records_text approval_payload value_eq
  granted_matches a ev t p = rw (t, p, eq_refl a.capability_id) refl

  -- When `grant_approval` returns, the approvals that are recorded for its capability are those that
  -- were recorded before, and then the granted one, as it was granted. `fromisoformat` is assumed to
  -- read the instant that `isoformat` wrote, and the path's text to parse to the path.
  pub grant_recorded :
      (stores stores' : Stores) (approval : ScopedApproval) (old : List ScopedApproval)
      {r' : TaskRecord} {place : Place}
      → clock.read_time (clock.show_time approval.expires_at) ≡ some approval.expires_at
      → parse_path (show_path approval.worktree_path) ≡ approval.worktree_path
      → valid_approval isalnum approval ≡ true
      → store_for digest facts.snapshot stores approval.task_id ≡ ok place
      → recorded_approvals digest isalnum clock facts
          (files_at place stores)
          approval.task_id
          approval.capability_id
        ≡ ok old
      → grant_approval digest isalnum clock facts stores approval ≡ ok (r', stores')
      → recorded_approvals digest isalnum clock facts
          (files_at place stores')
          approval.task_id
          approval.capability_id
        ≡ ok (old ++ approval ∷ [])
  unfolding grant_approval recorded_approvals
  grant_recorded stores stores' approval old {r' = r'} {place = place} time path valid stands before
        grants =
      let id = approval.task_id in
      let payload = approval_payload clock approval in
      let (current, planned, h₁) =
        >>=-eq-ok
          (plan_approval digest isalnum clock facts stores id approval.capability_id
            approval.max_uses (pos 15))
          _ grants in
      let (same, h₂) = guard-eq-ok (same_approval_scope current approval) value_error _ h₁ in
      let (place', stands', h₃) = >>=-eq-ok (store_for digest facts.snapshot stores id) _ h₂ in
      let at : place' ≡ place = ok_path (sym stands' ∙ stands) in
      let ((r'', files'), appends, h₄) =
        >>=-eq-ok
          (append_event digest facts.now (files_at place' stores) id "approval.granted" payload) _
          h₃ in
      let (r, ev, n, c, q) =
        append_event-Commit digest facts.now (files_at place' stores) id "approval.granted" payload
          appends in
      let written : files_at place stores' ≡ files' =
        subst (λ x. files_at x stores' ≡ files') at
          (ap (files_at place') (sym (ap (λ x. x.1) (ok_path h₄)))
            ∙ files_at-with_files place' files' stores) in
      let after : load digest (files_at place stores') id ≡ ok (with_event r r.state ev) =
        ap (λ fs. load digest fs id) written
        ∙ (load-Commit digest (files_at place' stores) id c).0
        ∙ ap ok q in
      let loaded : load digest (files_at place stores) id ≡ ok r =
        subst (λ x. load digest (files_at x stores) id ≡ ok r) at c.loaded in
      let (r₀, loads, had) = >>=-eq-ok (load digest (files_at place stores) id) _ before in
      let one : r₀ ≡ r = ok_path (sym loads ∙ loaded) in
      let events : approvals_in digest isalnum clock facts approval.capability_id r.events
          ≡ ok old =
        subst
          (λ x. approvals_in digest isalnum clock facts approval.capability_id x.events ≡ ok old)
          one had in
      rw after (
        approvals_in-append approval.capability_id r.events ev old approval
          (granted_matches approval ev n.type_ n.payload_)
          (ap (approval_from_payload clock isalnum) n.payload_
            ∙ from_payload-payload clock isalnum approval time path valid)
          events)
