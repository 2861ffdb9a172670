-- ===== src/Relay/Store/Revocation.antt =====
-- A device that was revoked stays so.
use terminal_x.Common.{
  ℕ, ◌≡◌, refl, Bool, true, false, String, Option, none, some, List, [], ◌∷◌, arith, inl, inr, ◌∙◌,
  string_key, ◌==◌, Bool-cases,
}
use terminal_x.Relay.Store.{
  Store, Device, StoreError, has_id, is_live, owns, is_null, create_device, device_by_token_hash,
  list_devices, rename_device, touch_device, revoke_device, scan_devices, scan_device, scanned,
}
use terminal_x.Relay.Store.Codes.{
  has_code, create_pair_code, inc_pair_attempts, redeem_pair_code, purge_pair_codes,
}
use terminal_x.Relay.Store.Records.{upsert_approval, set_approval_status, append_audit, set_setting}
use terminal_x.Relay.Store.Sql.{
  select, first, update, affects, order_by, affects-append, affects-update, affects-update_same,
  affects-order_by, affects-update_undone, affects_mono,
}
use terminal_x.Relay.Store.Times.{fmt_time, before}
use terminal_x.Relay.Store.Steps.{Step, Later}

-- The id is taken, by revoked rows alone.
abbrev Revoked : String → List Device → Type 0
Revoked id ds = (affects (is_live id) ds ≡ false) × (affects (has_id id) ds ≡ true)

update-Revoked :
    (id : String) (q : Device → Bool) (f : Device → Device) (ds : List Device)
    → ((d : Device) → (f d).id ≡ d.id)
    → ((d : Device) → is_null d.revoked_at ≡ false → is_null (f d).revoked_at ≡ false)
    → Revoked id ds
    → Revoked id (update q f ds)
update-Revoked id q f ds same dead (no_live, taken) = (
  affects-update (is_live id) q f ds (λ d n _. ground (arith, same d, dead d)) no_live,
  ground (arith, affects-update_same (has_id id) q f ds (λ d. ground (arith, same d))),
)

create-Revoked :
    (id : String) (d : Device) (s : Store)
    → Revoked id s.devices
    → Revoked id (create_device d s).0.devices
unfolding create_device affects
create-Revoked id d s (no_live, taken) = elim (Bool-cases (affects (has_id d.id) s.devices)) [
  | inl e ↦ rw e (no_live, taken)
  | inr e ↦ rw e (
    ground (arith, affects-append (is_live id) s.devices (scan_device d ∷ []), fresh e, no_live),
    ground (arith, affects-append (has_id id) s.devices (scan_device d ∷ []), taken),
  )
]
  where
    fresh : affects (has_id d.id) s.devices ≡ false → (d.id == id) ≡ false
    fresh e = elim (Bool-cases (d.id == id)) [
      | inr n ↦ n
      | inl y ↦
          let same = (string_key.agrees_iff d.id id).0 y in
          absurd (ground (arith, taken, rw same at e))
    ]

step-Revoked :
    (date : ℕ → List ℕ) (id : String) (s t : Store)
    → Step date s t
    → Revoked id s.devices
    → Revoked id t.devices
unfolding rename_device touch_device revoke_device create_pair_code inc_pair_attempts
    redeem_pair_code purge_pair_codes upsert_approval set_approval_status append_audit set_setting
step-Revoked date id s _ (Step.creates_device d) r = create-Revoked id d s r
step-Revoked date id s _ (Step.renames_device j name) r =
    update-Revoked id (is_live j) (λ d. record d { name = name }) s.devices (λ d. refl) (λ d h. h) r
step-Revoked date id s _ (Step.touches_device j at os version) r =
    update-Revoked id (has_id j) _ s.devices (λ d. refl) (λ d h. h) r
step-Revoked date id s _ (Step.revokes_device j at) r =
    update-Revoked id (is_live j) _ s.devices (λ d. refl) (λ d h. refl) r
step-Revoked date id s _ (Step.creates_pair_code p) r =
    elim (Bool-cases (affects (has_code p.code) s.pair_codes)) [ inl e ↦ rw e r | inr e ↦ rw e r ]
step-Revoked date id s _ (Step.counts_attempt code) r = r
step-Revoked date id s _ (Step.redeems_pair_code code now) r = r
step-Revoked date id s _ (Step.purges_pair_codes cutoff) r = r
step-Revoked date id s _ (Step.upserts_approval a) r = r
step-Revoked date id s _ (Step.sets_approval_status key status by at) r = r
step-Revoked date id s _ (Step.appends_audit e now) r = r
step-Revoked date id s _ (Step.sets_setting k v) r = r

later-Revoked :
    (date : ℕ → List ℕ) (id : String) (s t : Store)
    → Later date s t
    → Revoked id s.devices
    → Revoked id t.devices
later-Revoked date id s _ Later.here r = r
later-Revoked date id s _ (Later.then t u l st) r =
    step-Revoked date id t u st (later-Revoked date id s t l r)

revoke-Revoked :
    (id : String) (at : ℕ) (s : Store)
    → (revoke_device id at s).1 ≡ none
    → Revoked id (revoke_device id at s).0.devices
unfolding revoke_device
revoke-Revoked id at s e =
    let revoked : Device → Device = λ d. record d { revoked_at = some at; token_hash = "" } in
    (
      affects-update_undone (is_live id) (is_live id) revoked s.devices (λ d h. h)
          (λ d. ground arith),
      ground (
        arith,
        affects-update_same (has_id id) (is_live id) revoked s.devices (λ d. refl),
        affects_mono (is_live id) (has_id id) s.devices (λ d h. ground (arith, h)),
      ),
    )

-- Whether a query found the device.
abbrev pub finds : String → Option Device → Bool
finds id none = false
finds id (some d) = has_id id d

finds-first :
    (id hash : String) (ds : List Device)
    → affects (is_live id) ds ≡ false
    → finds id (scanned (first (owns hash) ds)) ≡ false
unfolding first affects
finds-first id hash [] h = refl
finds-first id hash (d ∷ ds) h = ground (arith, finds-first id hash ds)

finds-by_token :
    (id hash : String) (s : Store)
    → affects (is_live id) s.devices ≡ false
    → finds id (device_by_token_hash hash s) ≡ false
unfolding device_by_token_hash
finds-by_token id hash s h = elim (Bool-cases (hash == "")) [
  | inl e ↦ rw e refl
  | inr e ↦ rw e (finds-first id hash s.devices h)
]

pub scan-has_id :
    (id : String) (ds : List Device)
    → affects (has_id id) (scan_devices ds) ≡ affects (has_id id) ds
unfolding affects scan_devices
scan-has_id id [] = refl
scan-has_id id (d ∷ ds) = ground (arith, scan-has_id id ds)

listed :
    (id : String) (ds : List Device)
    → affects (is_live id) ds ≡ false
    → affects (has_id id) (select (λ d. is_null d.revoked_at) ds) ≡ false
unfolding affects select
listed id [] h = refl
listed id (d ∷ ds) h = ground (arith, listed id ds)

-- Once a revocation of a device has succeeded, whatever is written to the store afterwards, no token finds the device, no list
-- of the devices has it, it is not renamed or revoked again, and no new device gets its id.
pub revoked_forever :
    (date : ℕ → List ℕ) (id hash name : String) (at later : ℕ) (d : Device) (s t : Store)
    → (revoke_device id at s).1 ≡ none
    → Later date (revoke_device id at s).0 t
    → (finds id (device_by_token_hash hash t) ≡ false)
      × (affects (has_id id) (list_devices date t) ≡ false)
      × ((rename_device id name t).1 ≡ some StoreError.not_found)
      × ((revoke_device id later t).1 ≡ some StoreError.not_found)
      × ((create_device (record d { id = id }) t).1 ≡ some StoreError.failed)
unfolding list_devices rename_device revoke_device create_device
revoked_forever date id hash name at later d s t e l =
    let (no_live, taken) =
      later-Revoked date id (revoke_device id at s).0 t l (revoke-Revoked id at s e) in
    let less : Device → Device → Bool =
      λ a b. before (fmt_time date a.created_at) (fmt_time date b.created_at) in
    let live = select (λ (d : Device). is_null d.revoked_at) t.devices in
    (
      finds-by_token id hash t no_live,
      scan-has_id id (order_by less live)
          ∙ affects-order_by (has_id id) less live
          ∙ listed id t.devices no_live,
      rw no_live refl,
      rw no_live refl,
      rw taken refl,
    )
