-- ===== src/Boot/Strikes.antt =====
-- Boot after boot of an image that never confirms: each is counted, the one past the threshold
-- switches to the fallback.
use mathlib.Core.Path.{subst, ap₂}
use bootloader_ota.Base.{
  ℕ, zero, suc, ◌+◌, ◌≡◌, ◌≢◌, ◌∙◌, refl, sym, ap, arith, true, some, List, [], ◌∷◌, ◌++◌,
  replicate, Memory,
}
use bootloader_ota.Layout.{slot_addr, other_slot, max_boot_failures}
use bootloader_ota.Crc.{CrcUnit}
use bootloader_ota.Flash.{Flash, Controller}
use bootloader_ota.Flash.Frame.{IsController}
use bootloader_ota.Flash.Working.{IsReady, IsWorking}
use bootloader_ota.Metadata.{Metadata, SlotInfo, state_empty, state_testing, slot}
use bootloader_ota.Metadata.Codec.{IsMetadata}
use bootloader_ota.Store.{carried_slot, metadata_read, metadata_write, select_target, sealed}
use bootloader_ota.Store.Valid.{read-IsUsable}
use bootloader_ota.Store.Committed.{read-write, sealed-IsMetadata, target-lt}
use bootloader_ota.Store.Works.{IsSane, metadata_write-succeeds}
use bootloader_ota.Store.Room.{CounterRoom, CounterRoom-below, write-room}
use bootloader_ota.Boot.{
  Plan, listen_then_jump, jump_now, image_is_intact, decide, rolled_back, attempted,
}
use bootloader_ota.Boot.Decision.{image_is_intact-Agree, slot_kept}
use bootloader_ota.Boot.Trial.{
  decide-attempt, decide-roll_back, roll_back-result, sealed-attempted, sealed-rolled_back,
  attempted-IsMetadata, rolled_back-IsMetadata,
}

-- The plans of `n` boots in a row; between two of them there is a reset and nothing is recorded.
unfoldable pub unconfirmed_boots : CrcUnit → Controller → ℕ → Flash → List Plan × Flash
unconfirmed_boots unit hw zero flash = ([], flash)
unconfirmed_boots unit hw (suc n) flash =
    let (plan, after) = decide unit hw (metadata_read unit flash.mem) flash in
    let (plans, last) = unconfirmed_boots unit hw n after in (plan ∷ plans, last)

module _ (unit : CrcUnit) where
  -- An image is under test with `n` boots left, and the other slot holds a fallback.
  pub record IsOnTrial (n : ℕ) (meta : Metadata) (flash : Flash) : Type 0 where
    pub read : metadata_read unit flash.mem ≡ some meta
    pub fits : IsMetadata meta
    pub testing : (slot meta meta.active_slot).state ≡ state_testing
    pub left : meta.boot_fail_count + n ≡ max_boot_failures
    pub intact : image_is_intact unit flash.mem meta meta.active_slot ≡ true
    pub filled : (slot meta (other_slot meta.active_slot)).state ≢ state_empty
    pub fallback : image_is_intact unit flash.mem meta (other_slot meta.active_slot) ≡ true
    pub room : CounterRoom unit (suc n) flash.mem
    pub ready : IsReady flash

  -- A record with the same size and CRC describes the same image.
  pub image_is_intact-same :
      (mem : Memory) (m n : Metadata) (s : ℕ)
      → (slot n s).size ≡ (slot m s).size
      → (slot n s).crc32 ≡ (slot m s).crc32
      → image_is_intact unit mem m s ≡ true
      → image_is_intact unit mem n s ≡ true
  unfolding image_is_intact
  image_is_intact-same mem m n s size crc h = ground (arith, size, crc)

  pub image_is_intact-carried :
      (mem : Memory) (m n : Metadata) (s : ℕ)
      → slot n s ≡ carried_slot (slot m s)
      → image_is_intact unit mem m s ≡ true
      → image_is_intact unit mem n s ≡ true
  image_is_intact-carried mem m n s e h =
      image_is_intact-same mem m n s (ap (λ i. SlotInfo.size i) e) (ap (λ i. SlotInfo.crc32 i) e) h

  module _ (hw : Controller) (laws : IsController hw) (works : IsWorking hw) where
    attempted-IsSane :
        (meta : Metadata) (flash : Flash)
        → metadata_read unit flash.mem ≡ some meta
        → IsSane (attempted meta)
    attempted-IsSane meta flash e =
        let u = read-IsUsable unit flash.mem meta e in
        record {
          active = u.active;
          first_state = u.first_state;
          second_state = u.second_state;
          first_size = u.first_size;
          second_size = u.second_size;
        }

    rolled_back-IsSane :
        (meta : Metadata) (flash : Flash)
        → metadata_read unit flash.mem ≡ some meta
        → IsSane (rolled_back meta)
    rolled_back-IsSane meta flash e =
        let u = read-IsUsable unit flash.mem meta e in
        ground (arith, u.active, u.first_state, u.second_state, u.first_size, u.second_size)

    pub strike :
        (n : ℕ) (meta : Metadata) (flash : Flash)
        → IsOnTrial (suc n) meta flash
        → let (plan, after) = decide unit hw (metadata_read unit flash.mem) flash in
          (new : Metadata) × (plan ≡ listen_then_jump (slot_addr meta.active_slot))
          × (new.active_slot ≡ meta.active_slot)
          × IsOnTrial n new after
    strike n meta flash t =
        let fits = attempted-IsMetadata unit hw laws meta t.fits in
        let (written, rested) =
          metadata_write-succeeds unit hw works (attempted meta) flash fits
            (attempted-IsSane meta flash t.read) t.ready in
        let after = (metadata_write unit hw (attempted meta) flash).1 in
        let c = (select_target unit flash.mem).1 in
        let new = sealed unit c (attempted meta) in
        let active = meta.active_slot in
        let (same, count, first, second) =
          sealed-attempted unit hw laws c meta (omega (arith, t.left)) in
        let kept : (s : ℕ) → slot new s ≡ carried_slot (slot meta s) =
          λ s. ground (arith, first, second) in
        let still : (s : ℕ)
            → image_is_intact unit flash.mem meta s ≡ true
            → image_is_intact unit after.mem new s ≡ true =
          λ s h. image_is_intact-carried after.mem meta new s (kept s) (
            image_is_intact-Agree unit flash.mem after.mem meta s
              (slot_kept unit hw laws (attempted meta) flash s) h) in
        rw
          (
            t.read,
            decide-attempt unit hw laws meta flash t.testing (omega (arith, t.left)) t.intact,
          )
          (
            new,
            refl,
            same,
            record {
              read =
                  read-write unit hw laws (attempted meta) flash fits
                    (CounterRoom-below unit (suc n) flash.mem t.room) written;
              fits = sealed-IsMetadata unit c (attempted meta) (target-lt unit flash.mem) fits;
              testing = rw (kept new.active_slot) (rw same t.testing);
              left = omega (arith, count, t.left);
              intact =
                  subst (λ k. image_is_intact unit after.mem new k ≡ true) (sym same)
                    (still active t.intact);
              filled = rw (kept (other_slot new.active_slot)) (rw same t.filled);
              fallback =
                  subst (λ k. image_is_intact unit after.mem new (other_slot k) ≡ true) (sym same)
                    (still (other_slot active) t.fallback);
              room =
                  write-room unit hw laws (suc n) (attempted meta) flash (omega (arith, t.left))
                    fits t.room written;
              ready = rested;
            },
          )

    -- What is read after the switch.
    abbrev pub SwitchedFrom : ℕ → Flash → Type 0
    SwitchedFrom rejected flash =
        (new : Metadata) × (metadata_read unit flash.mem ≡ some new)
        × (new.active_slot ≡ other_slot rejected)
        × (new.boot_fail_count ≡ 0)
        × ((slot new rejected).state ≡ state_empty)

    switch :
        (meta : Metadata) (flash : Flash)
        → IsOnTrial 0 meta flash
        → let (plan, after) = decide unit hw (metadata_read unit flash.mem) flash in
          (plan ≡ jump_now (slot_addr (other_slot meta.active_slot)))
          × SwitchedFrom meta.active_slot after
    switch meta flash t =
        let c = (select_target unit flash.mem).1 in
        let fits = rolled_back-IsMetadata unit hw laws meta t.fits in
        let (written, rested) =
          metadata_write-succeeds unit hw works (rolled_back meta) flash fits
            (rolled_back-IsSane meta flash t.read) t.ready in
        let (active, fails, other, rejected) =
          sealed-rolled_back unit hw laws c meta
            (read-IsUsable unit flash.mem meta t.read).active in
        rw
          (
            t.read,
            decide-roll_back unit hw meta flash t.testing (omega (arith, t.left)),
            roll_back-result unit hw laws meta flash t.filled t.fallback written,
          )
          (
            refl,
            (
              sealed unit c (rolled_back meta),
              read-write unit hw laws (rolled_back meta) flash fits
                  (CounterRoom-below unit 0 flash.mem t.room) written,
              active,
              fails,
              ap (λ i. SlotInfo.state i) rejected,
            ),
          )

    boots_of :
        (n a : ℕ) (meta : Metadata) (flash : Flash)
        → meta.active_slot ≡ a
        → IsOnTrial n meta flash
        → let (plans, after) = unconfirmed_boots unit hw (suc n) flash in
          (plans
            ≡ replicate n (listen_then_jump (slot_addr a))
              ++ (jump_now (slot_addr (other_slot a)) ∷ []))
          × SwitchedFrom a after
    unfolding unconfirmed_boots
    boots_of zero a meta flash e t =
        subst
          (λ k.
            let (plan, after) = decide unit hw (metadata_read unit flash.mem) flash in
            ((plan ∷ []) ≡ (jump_now (slot_addr (other_slot k)) ∷ [])) × SwitchedFrom k after)
          e (ap (λ p. p ∷ []) (switch meta flash t).0, (switch meta flash t).1)
    boots_of (suc n) a meta flash e t =
        let (new, plan, same, trial) = strike n meta flash t in
        let after = (decide unit hw (metadata_read unit flash.mem) flash).1 in
        let (plans, switched) = boots_of n a new after (same ∙ e) trial in
        (ap₂ ◌∷◌ (plan ∙ ap (λ k. listen_then_jump (slot_addr k)) e) plans, switched)

    -- With a working controller, an image under test that has `n` boots left runs `n` times without a
    -- confirmation; the boot after these hands over to the fallback, and the record then read has the
    -- fallback active, no failed boot, and the slot of the rejected image empty.
    pub boots_then_fallback :
        (n : ℕ) (meta : Metadata) (flash : Flash)
        → IsOnTrial n meta flash
        → let (plans, after) = unconfirmed_boots unit hw (suc n) flash in
          let active = meta.active_slot in
          (plans
            ≡ replicate n (listen_then_jump (slot_addr active))
              ++ (jump_now (slot_addr (other_slot active)) ∷ []))
          × SwitchedFrom active after
    boots_then_fallback n meta flash t = boots_of n meta.active_slot meta flash refl t
