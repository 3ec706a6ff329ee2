-- ===== src/App/Trigger.antt =====
-- When an update request is taken for one.
use native.Mathlib.Numerals.{add-one}
use bootloader_ota.Base.{
  ℕ, zero, suc, ◌+◌, ◌<◌, ◌≡◌, ◌==◌, leb, refl, arith, if◌then◌else◌, Bool, true, false, ◌&&◌, List,
  [], ◌∷◌, take,
}
use bootloader_ota.App.{ota_trigger_byte, ota_confirm_polls, trigger_drain, ota_trigger_poll}

-- Every byte is the trigger.
unfoldable pub all_trigger : List ℕ → Bool
all_trigger [] = true
all_trigger (c ∷ bytes) = (c == ota_trigger_byte) && all_trigger bytes

-- A poll that sees the trigger and nothing else: the first 16 bytes count.
unfoldable pub asks : List ℕ → Bool
asks [] = false
asks (c ∷ bytes) = all_trigger (take 16 (c ∷ bytes))

-- The last `n` polls, newest first, all ask.
unfoldable pub asked : ℕ → List (List ℕ) → Bool
asked zero polls = true
asked (suc n) [] = false
asked (suc n) (p ∷ polls) = asks p && asked n polls

-- The polls since start-up, newest first: the last result, and the streak after it.
unfoldable pub polled : List (List ℕ) → Bool × ℕ
polled [] = (false, 0)
polled (p ∷ polls) = ota_trigger_poll p ((polled polls).1)

drain-seen :
    (budget : ℕ) (bytes : List ℕ) (clean : Bool)
    → trigger_drain budget bytes true clean ≡ (true, clean && all_trigger (take budget bytes))
unfolding trigger_drain all_trigger
drain-seen zero bytes clean = ground arith
drain-seen (suc budget) [] clean = ground arith
drain-seen (suc budget) (c ∷ bytes) clean =
    ground (arith, drain-seen budget bytes false, drain-seen budget bytes clean)

drain-asks :
    (bytes : List ℕ)
    → ((trigger_drain 16 bytes false true).0 && (trigger_drain 16 bytes false true).1) ≡ asks bytes
unfolding trigger_drain asks all_trigger
drain-asks [] = refl
drain-asks (c ∷ bytes) = ground (arith, drain-seen 15 bytes false, drain-seen 15 bytes true)

poll-asks :
    (bytes : List ℕ) (streak : ℕ)
    → ota_trigger_poll bytes streak ≡ (
        if asks bytes
        then (if leb ota_confirm_polls (streak + 1) then (true, 0) else (false, streak + 1))
        else (false, 0))
unfolding ota_trigger_poll
poll-asks bytes streak = rw (drain-asks bytes) (ground arith)

asked-next :
    (n : ℕ) (p : List ℕ) (polls : List (List ℕ))
    → asked (n + 1) (p ∷ polls) ≡ (asks p && asked n polls)
unfolding asked
asked-next n p polls = rw add-one refl

streak-asked :
    (polls : List (List ℕ))
    → ((polled polls).1 < ota_confirm_polls) × (asked ((polled polls).1) polls ≡ true)
unfolding polled asked
streak-asked [] = (omega arith, refl)
streak-asked (p ∷ polls) =
    let before = (polled polls).1 in
    ground (arith, poll-asks p before, asked-next before p polls, streak-asked polls)

-- A poll reports a request only if it and the three before it have each seen the trigger byte and,
-- among the first 16 bytes, nothing else.
pub trigger_needs_four :
    (polls : List (List ℕ)) → (polled polls).0 ≡ true → asked ota_confirm_polls polls ≡ true
unfolding polled asked
trigger_needs_four [] fires = ground arith
trigger_needs_four (p ∷ polls) fires =
    ground (arith, poll-asks p (polled polls).1, streak-asked polls)
