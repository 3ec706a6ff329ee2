-- ===== src/Boot/Confirms.antt =====
-- From a trial over the application's confirmation to every later boot.
use mathlib.Core.Path.{subst, ap₂}
use bootloader_ota.Base.{
  ℕ, zero, suc, some, ◌+◌, ◌≤◌, ◌≡◌, ◌∙◌, sym, refl, ap, arith, true, ◌∷◌, replicate,
}
use bootloader_ota.Layout.{slot_addr}
use bootloader_ota.Crc.{CrcUnit}
use bootloader_ota.Flash.{Flash, Controller}
use bootloader_ota.Flash.Frame.{IsController}
use bootloader_ota.Flash.Working.{IsWorking}
use bootloader_ota.Metadata.{Metadata, SlotInfo, state_testing, state_valid, slot}
use bootloader_ota.Store.{
  meta_ok, carried_slot, metadata_read, metadata_write, select_target, sealed,
}
use bootloader_ota.Store.Valid.{read-IsUsable}
use bootloader_ota.Store.Committed.{read-write}
use bootloader_ota.Store.Works.{IsSane, metadata_write-succeeds}
use bootloader_ota.Store.Room.{CounterRoom-below}
use bootloader_ota.App.{confirmed, current_slot, confirmed_record, confirm_startup}
use bootloader_ota.App.Confirm.{
  current_slot-le, confirmed_record-IsMetadata, sealed-confirmed_record, confirmation-write,
}
use bootloader_ota.Boot.{listen_then_jump, image_is_intact, decide}
use bootloader_ota.Boot.Decision.{image_is_intact-Agree, slot_kept}
use bootloader_ota.Boot.Strikes.{IsOnTrial, unconfirmed_boots, strike, image_is_intact-same}

module _ (unit : CrcUnit) where
  -- The active image is VALID and intact.
  pub record IsConfirmed (active : ℕ) (flash : Flash) : Type 0 where
    pub meta : Metadata
    pub read : metadata_read unit flash.mem ≡ some meta
    pub chosen : meta.active_slot ≡ active
    pub valid : (slot meta meta.active_slot).state ≡ state_valid
    pub intact : image_is_intact unit flash.mem meta meta.active_slot ≡ true

  module _ (hw : Controller) where
    pub decide-valid :
        (meta : Metadata) (flash : Flash)
        → (slot meta meta.active_slot).state ≡ state_valid
        → image_is_intact unit flash.mem meta meta.active_slot ≡ true
        → decide unit hw (some meta) flash ≡ (listen_then_jump (slot_addr meta.active_slot), flash)
    unfolding decide
    decide-valid meta flash valid intact = ground arith

    confirmed_boot :
        (active : ℕ) (flash : Flash)
        → IsConfirmed active flash
        → decide unit hw (metadata_read unit flash.mem) flash
          ≡ (listen_then_jump (slot_addr active), flash)
    confirmed_boot active flash c =
        rw (c.read, decide-valid c.meta flash c.valid c.intact)
          (ap (λ k. (listen_then_jump (slot_addr k), flash)) c.chosen)

    -- A confirmed image runs at every boot, and nothing is written.
    confirmed_boots :
        (n active : ℕ) (flash : Flash)
        → IsConfirmed active flash
        → unconfirmed_boots unit hw n flash
          ≡ (replicate n (listen_then_jump (slot_addr active)), flash)
    unfolding unconfirmed_boots
    confirmed_boots zero active flash c = refl
    confirmed_boots (suc n) active flash c =
        rw (confirmed_boot active flash c) (rw (confirmed_boots n active flash c) refl)

    module _ (laws : IsController hw) (works : IsWorking hw) where
      -- Some boots of a trial that leave it open.
      trial_boots :
          (k n active : ℕ) (meta : Metadata) (flash : Flash)
          → meta.active_slot ≡ active
          → IsOnTrial unit (k + n) meta flash
          → let (plans, after) = unconfirmed_boots unit hw k flash in
            (new : Metadata) × (plans ≡ replicate k (listen_then_jump (slot_addr active)))
            × (new.active_slot ≡ active)
            × IsOnTrial unit n new after
      unfolding unconfirmed_boots
      trial_boots zero n active meta flash e t =
          let none_left : zero + n ≡ n = omega arith in
          (meta, refl, e, subst (λ k. IsOnTrial unit k meta flash) none_left t)
      trial_boots (suc k) n active meta flash e t =
          let one_more : suc k + n ≡ suc (k + n) = omega arith in
          let (new, plan, same, trial) =
            strike unit hw laws works (k + n) meta flash
              (subst (λ k. IsOnTrial unit k meta flash) one_more t) in
          let after = (decide unit hw (metadata_read unit flash.mem) flash).1 in
          let (last, plans, chosen, open_trial) =
            trial_boots k n active new after (same ∙ e) trial in
          (
            last,
            ap₂ ◌∷◌ (plan ∙ ap (λ k. listen_then_jump (slot_addr k)) e) plans,
            chosen,
            open_trial,
          )

      confirmed_record-IsSane :
          (s : ℕ) (meta : Metadata) (flash : Flash)
          → metadata_read unit flash.mem ≡ some meta
          → IsSane (confirmed_record s meta)
      confirmed_record-IsSane s meta flash e =
          let u = read-IsUsable unit flash.mem meta e in
          ground (arith, u.active, u.first_state, u.second_state, u.first_size, u.second_size)

      current_slot-addr : (s : ℕ) → s ≤ 1 → current_slot (slot_addr s) ≡ s
      unfolding current_slot
      current_slot-addr s low = ground (arith, low)

      confirm_startup-confirmed :
          (vtor : ℕ) (meta : Metadata) (flash : Flash)
          → metadata_read unit flash.mem ≡ some meta
          → (slot meta (current_slot vtor)).state ≡ state_testing
          → (metadata_write unit hw (confirmed_record (current_slot vtor) meta) flash).0 ≡ meta_ok
          → (confirm_startup unit hw vtor flash).0 ≡ confirmed
      unfolding confirm_startup
      confirm_startup-confirmed vtor meta flash e testing ok = ground (arith, e, testing, ok)

      -- The application that is under test confirms itself.
      trial-IsConfirmed :
          (n : ℕ) (meta : Metadata) (flash : Flash)
          → IsOnTrial unit n meta flash
          → let (said, after) = confirm_startup unit hw (slot_addr meta.active_slot) flash in
            (said ≡ confirmed) × IsConfirmed meta.active_slot after
      trial-IsConfirmed n meta flash t =
          let active = meta.active_slot in
          let vtor = slot_addr active in
          let here = current_slot-addr active (read-IsUsable unit flash.mem meta t.read).active in
          let src = confirmed_record (current_slot vtor) meta in
          let fits = confirmed_record-IsMetadata (current_slot vtor) meta t.fits in
          let (ok, rested) =
            metadata_write-succeeds unit hw works src flash fits
              (confirmed_record-IsSane (current_slot vtor) meta flash t.read) t.ready in
          let testing : (slot meta (current_slot vtor)).state ≡ state_testing = rw here t.testing in
          let said = confirm_startup-confirmed vtor meta flash t.read testing ok in
          let (written, same) = confirmation-write unit hw vtor flash meta t.read said in
          let c = (select_target unit flash.mem).1 in
          let (kept, count, own, other) =
            sealed-confirmed_record unit hw c (current_slot vtor) meta (current_slot-le vtor) in
          let new = sealed unit c src in
          let after = (metadata_write unit hw src flash).1 in
          let mine : slot new active
              ≡ record (carried_slot (slot meta active)) { state = state_valid } =
            subst (λ s. slot new s ≡ record (carried_slot (slot meta s)) { state = state_valid })
              here own in
          let intact : image_is_intact unit after.mem new active ≡ true =
            image_is_intact-same unit after.mem meta new active (ap (λ i. SlotInfo.size i) mine)
              (ap (λ i. SlotInfo.crc32 i) mine)
              (image_is_intact-Agree unit flash.mem after.mem meta active
                (slot_kept unit hw laws src flash active) t.intact) in
          (
            said,
            subst (IsConfirmed active) (sym same) (record {
              meta = new;
              read =
                  read-write unit hw laws src flash fits (CounterRoom-below unit n flash.mem t.room)
                    ok;
              chosen = kept;
              valid = ap (λ k. SlotInfo.state (slot new k)) kept ∙ ap (λ i. SlotInfo.state i) mine;
              intact = subst (λ k. image_is_intact unit after.mem new k ≡ true) (sym kept) intact;
            }),
          )

      -- On a working controller, an image on trial that starts some times without a confirmation, as
      -- long as boots are left or none, and then confirms itself, is told so, and at every later boot
      -- the bootloader listens and jumps to it and writes nothing.
      pub trial_confirmed :
          (tries n boots : ℕ) (meta : Metadata) (flash : Flash)
          → IsOnTrial unit (tries + n) meta flash
          → let app = slot_addr meta.active_slot in
            let (plans, run) = unconfirmed_boots unit hw tries flash in
            let (said, kept) = confirm_startup unit hw app run in
            (plans ≡ replicate tries (listen_then_jump app))
            × (said ≡ confirmed)
            × (unconfirmed_boots unit hw boots kept
                ≡ (replicate boots (listen_then_jump app), kept))
      trial_confirmed tries n boots meta flash t =
          let a = meta.active_slot in
          let (new, plans, same, trial) = trial_boots tries n a meta flash refl t in
          let run = (unconfirmed_boots unit hw tries flash).1 in
          let (said, c) =
            subst
              (λ k.
                let (said, after) = confirm_startup unit hw (slot_addr k) run in
                (said ≡ confirmed) × IsConfirmed k after)
              same (trial-IsConfirmed n new run trial) in
          (plans, said, confirmed_boots boots a (confirm_startup unit hw (slot_addr a) run).1 c)
