-- ===== src/Relay/Store/Log.antt =====
-- The audit log lists what happened last first.
use terminal_x.Common.{
  ℕ, suc, ◌%◌, ◌^◌, ◌≡◌, ◌<◌, refl, Bool, false, List, [], ◌∷◌, ◌++◌, arith, ltb, Bool-cases, inl,
  inr,
}
use terminal_x.Relay.Store.{
  Store, Device, PairCode, AuditEntry, has_id, create_device, rename_device, touch_device,
  revoke_device,
}
use terminal_x.Relay.Store.Codes.{
  has_code, create_pair_code, inc_pair_attempts, redeem_pair_code, purge_pair_codes,
}
use terminal_x.Relay.Store.Records.{
  upsert_approval, set_approval_status, append_audit, set_setting, list_audit, scan_entries,
  at_or_now,
}
use terminal_x.Relay.Store.Sql.{affects, order_by, place, affects-append, affects_mono}
use terminal_x.Relay.Store.Expiry.{new_store}
use terminal_x.Relay.Store.Steps.{Step, Later}

abbrev newest : AuditEntry → AuditEntry → Bool
newest a b = ltb b.id a.id

-- Every id was given out by the counter.
abbrev Counted : Store → Type 0
Counted s = affects (λ (e : AuditEntry). ltb s.last_id e.id) s.audit ≡ false

order_by-last :
    (es : List AuditEntry) (e : AuditEntry) (n : ℕ)
    → affects (λ (e : AuditEntry). ltb n e.id) es ≡ false
    → n < e.id
    → order_by newest (es ++ e ∷ []) ≡ e ∷ order_by newest es
unfolding affects order_by place
order_by-last [] e n h g = refl
order_by-last (a ∷ es) e n h g =
    let rest = order_by-last es e n (ground (arith, h)) g in ground (arith, rest, h, g)

create-audit :
    (d : Device) (s : Store)
    → ((create_device d s).0.audit ≡ s.audit) × ((create_device d s).0.last_id ≡ s.last_id)
unfolding create_device
create-audit d s = elim (Bool-cases (affects (has_id d.id) s.devices)) [
  | inl e ↦ rw e (refl, refl)
  | inr e ↦ rw e (refl, refl)
]

code-audit :
    (p : PairCode) (s : Store)
    → ((create_pair_code p s).0.audit ≡ s.audit) × ((create_pair_code p s).0.last_id ≡ s.last_id)
unfolding create_pair_code
code-audit p s = elim (Bool-cases (affects (has_code p.code) s.pair_codes)) [
  | inl e ↦ rw e (refl, refl)
  | inr e ↦ rw e (refl, refl)
]

append-Counted : (e : AuditEntry) (now : ℕ) (s : Store) → Counted s → Counted (append_audit e now s)
unfolding append_audit affects
append-Counted e now s h =
    let row = record e { id = suc s.last_id; at = at_or_now e.at now } in
    let above : ℕ → AuditEntry → Bool = λ n e. ltb n e.id in
    ground (
      arith,
      affects-append (above (suc s.last_id)) s.audit (row ∷ []),
      affects_mono (above (suc s.last_id)) (above s.last_id) s.audit (λ e h. ground (arith, h)),
    )

later-Counted : (date : ℕ → List ℕ) (s : Store) → Later date new_store s → Counted s
unfolding rename_device touch_device revoke_device inc_pair_attempts redeem_pair_code
    purge_pair_codes upsert_approval set_approval_status set_setting
later-Counted date _ Later.here = unfold affects in refl
later-Counted date _ (Later.then t v l (Step.creates_device d)) =
    rw (create-audit d t).0 (rw (create-audit d t).1 (later-Counted date t l))
later-Counted date _ (Later.then t v l (Step.renames_device j name)) = later-Counted date t l
later-Counted date _ (Later.then t v l (Step.touches_device j at os version)) =
    later-Counted date t l
later-Counted date _ (Later.then t v l (Step.revokes_device j at)) = later-Counted date t l
later-Counted date _ (Later.then t v l (Step.creates_pair_code p)) =
    rw (code-audit p t).0 (rw (code-audit p t).1 (later-Counted date t l))
later-Counted date _ (Later.then t v l (Step.counts_attempt c)) = later-Counted date t l
later-Counted date _ (Later.then t v l (Step.redeems_pair_code c now)) = later-Counted date t l
later-Counted date _ (Later.then t v l (Step.purges_pair_codes cutoff)) = later-Counted date t l
later-Counted date _ (Later.then t v l (Step.upserts_approval a)) = later-Counted date t l
later-Counted date _ (Later.then t v l (Step.sets_approval_status key status by at)) =
    later-Counted date t l
later-Counted date _ (Later.then t v l (Step.appends_audit e now)) =
    append-Counted e now t (later-Counted date t l)
later-Counted date _ (Later.then t v l (Step.sets_setting k x)) = later-Counted date t l

-- In every state of the store after the start, an entry that is appended is listed first, with a session id of 32 bits and the next id, followed
-- by what was listed before, up to the limit, which is more than one.
pub list_audit-append_audit :
    (date : ℕ → List ℕ) (e : AuditEntry) (now limit : ℕ) (s : Store)
    → Later date new_store s
    → list_audit (suc (suc limit)) (append_audit e now s)
      ≡ record e { id = suc s.last_id; at = at_or_now e.at now; sid = e.sid % 2 ^ 32 }
        ∷ list_audit (suc limit) s
unfolding list_audit append_audit scan_entries
list_audit-append_audit date e now limit s l =
    let row = record e { id = suc s.last_id; at = at_or_now e.at now } in
    let last = order_by-last s.audit row s.last_id (later-Counted date s l) (omega arith) in
    ground (arith, last)
