-- ===== src/Gateway/Pipe.antt =====
-- The gateway's loop as a pipe in both directions.
use mathlib.Core.Path.{subst}
use mathlib.Core.List.{append_assoc, append-nil}
use bootloader_ota.Base.{
  ℕ, ◌≡◌, ◌∙◌, sym, ap, arith, true, List, [], ◌∷◌, ◌++◌, length, length-drop, ◌+◌, ◌<◌, ◌≤◌, ◌⊎◌,
  inl, inr, refl, take, drop, take-append-drop,
}
use bootloader_ota.Gateway.{
  Bridge, Answers, is_open, accept, read_count, socket_to_serial, serial_to_socket, loop, arrives,
  session, from_net, from_uart,
}

moved : (xs ys : List ℕ) (n : ℕ) → (xs ++ take n ys) ++ drop n ys ≡ xs ++ ys
moved xs ys n = append_assoc xs (take n ys) (drop n ys) ∙ ap (λ t. xs ++ t) (take-append-drop n ys)

regroup : (s w xs ys : List ℕ) → (s ++ (w ++ xs)) ++ ys ≡ (s ++ w) ++ (xs ++ ys)
regroup s w xs ys = simp append_assoc

-- The two directions of a turn, and the client that stays.
loop-conserves :
    (a : Answers) (b : Bridge)
    → is_open b.client ≡ true
    → let after = loop a b in
      (is_open after.client ≡ true)
      × (after.serial_sent ++ after.client.waits ≡ b.serial_sent ++ b.client.waits)
      × (after.client.sent ++ after.serial_waits ≡ b.client.sent ++ b.serial_waits)
unfolding loop accept socket_to_serial serial_to_socket
loop-conserves a b open_client = ground (
  arith,
  moved b.serial_sent b.client.waits (read_count a.client_got b.client.waits),
  moved b.client.sent b.serial_waits (read_count a.serial_got b.serial_waits),
)

-- What has been forwarded and what waits is what has arrived, in both directions.
session-pipe :
    (turns : List (List ℕ × List ℕ × Answers)) (b : Bridge)
    → is_open b.client ≡ true
    → let after = session turns b in
      (after.serial_sent ++ after.client.waits
        ≡ (b.serial_sent ++ b.client.waits) ++ from_net turns)
      × (after.client.sent ++ after.serial_waits
          ≡ (b.client.sent ++ b.serial_waits) ++ from_uart turns)
unfolding session
session-pipe [] b open_client = (sym (append-nil _), sym (append-nil _))
session-pipe ((net, uart, a) ∷ rest) b open_client =
    let (stays, down, up) = loop-conserves a (arrives net uart b) open_client in
    let (later_down, later_up) = session-pipe rest (loop a (arrives net uart b)) stays in
    (
      later_down
          ∙ ap (λ t. t ++ from_net rest) down
          ∙ regroup b.serial_sent b.client.waits net (from_net rest),
      later_up
          ∙ ap (λ t. t ++ from_uart rest) up
          ∙ regroup b.client.sent b.serial_waits uart (from_uart rest),
    )

-- A turn in which both reads return at least a byte if one waits, and nothing new arrives.
abbrev pub AllAnswer : List Answers → Type 0
AllAnswer [] = Unit
AllAnswer (a ∷ rest) = (0 < a.client_got) × (0 < a.serial_got) × AllAnswer rest

abbrev pub quiet : List Answers → List (List ℕ × List ℕ × Answers)
quiet [] = []
quiet (a ∷ rest) = ([], [], a) ∷ quiet rest

read_some :
    (got : ℕ) (xs : List ℕ)
    → 0 < got
    → (length xs ≡ 0) ⊎ (length (drop (read_count got xs) xs) < length xs)
read_some got [] some_got = inl refl
read_some got (x ∷ xs) some_got =
    inr (ground (arith, length-drop (read_count got (x ∷ xs)) (x ∷ xs)))

-- Each such turn leaves less to be forwarded, in both directions.
loop-less :
    (a : Answers) (b : Bridge) (n : ℕ)
    → is_open b.client ≡ true
    → 0 < a.client_got
    → 0 < a.serial_got
    → length b.client.waits ≤ n + 1
    → length b.serial_waits ≤ n + 1
    → (length (loop a b).client.waits ≤ n) × (length (loop a b).serial_waits ≤ n)
unfolding loop accept socket_to_serial serial_to_socket
loop-less a b n open_client down up fits fits2 =
    ground
      (arith, read_some a.client_got b.client.waits down, read_some a.serial_got b.serial_waits up)

arrives-none : (b : Bridge) → arrives [] [] b ≡ b
arrives-none b = rw (append-nil b.client.waits, append-nil b.serial_waits) refl

-- Enough of these turns leave nothing.
quiet-empties :
    (answers : List Answers) (b : Bridge)
    → is_open b.client ≡ true
    → AllAnswer answers
    → length b.client.waits ≤ length answers
    → length b.serial_waits ≤ length answers
    → (length (session (quiet answers) b).client.waits ≡ 0)
      × (length (session (quiet answers) b).serial_waits ≡ 0)
unfolding session
quiet-empties [] b open_client fine fits fits2 = (omega arith, omega arith)
quiet-empties (a ∷ answers) b open_client (down, up, fine) fits fits2 =
    let (less, less2) =
      loop-less a b (length answers) open_client down up (omega arith) (omega arith) in
    subst
      (λ c.
        (length (session (quiet answers) (loop a c)).client.waits ≡ 0)
        × (length (session (quiet answers) (loop a c)).serial_waits ≡ 0))
      (sym (arrives-none b))
      (quiet-empties answers (loop a b) ((loop-conserves a b open_client).0) fine less less2)

session-append :
    (xs ys : List (List ℕ × List ℕ × Answers)) (b : Bridge)
    → session (xs ++ ys) b ≡ session ys (session xs b)
unfolding session
session-append [] ys b = refl
session-append ((net, uart, a) ∷ xs) ys b = session-append xs ys (loop a (arrives net uart b))

none_from :
    (answers : List Answers) → (from_net (quiet answers) ≡ []) × (from_uart (quiet answers) ≡ [])
none_from [] = (refl, refl)
none_from (a ∷ answers) = none_from answers

session-open :
    (turns : List (List ℕ × List ℕ × Answers)) (b : Bridge)
    → is_open b.client ≡ true
    → is_open (session turns b).client ≡ true
unfolding session
session-open [] b open_client = open_client
session-open ((net, uart, a) ∷ rest) b open_client =
    session-open rest (loop a (arrives net uart b))
      ((loop-conserves a (arrives net uart b) open_client).0)

empty_of : (xs ys zs : List ℕ) → length ys ≡ 0 → xs ++ ys ≡ zs → xs ≡ zs
empty_of xs [] zs none_left e = sym (append-nil xs) ∙ e
empty_of xs (y ∷ ys) zs none_left e = absurd (omega arith)

-- While its client stays connected, the gateway forwards every byte, in order and in both directions: after any turns,
-- and then at least as many turns as bytes wait on either side, which bring no new bytes and whose reads return at least
-- one byte where one waits, the UART has been sent what the socket delivered, and the socket what the UART said.
pub session-delivers :
    (turns : List (List ℕ × List ℕ × Answers)) (answers : List Answers) (b : Bridge)
    → is_open b.client ≡ true
    → AllAnswer answers
    → length (session turns b).client.waits ≤ length answers
    → length (session turns b).serial_waits ≤ length answers
    → let after = session (turns ++ quiet answers) b in
      (after.serial_sent ≡ (b.serial_sent ++ b.client.waits) ++ from_net turns)
      × (after.client.sent ≡ (b.client.sent ++ b.serial_waits) ++ from_uart turns)
session-delivers turns answers b open_client fine fits fits2 =
    let before = session turns b in
    let stays = session-open turns b open_client in
    let (down, up) = session-pipe turns b open_client in
    let (down2, up2) = session-pipe (quiet answers) before stays in
    let (no_net, no_uart) = none_from answers in
    let (left, left2) = quiet-empties answers before stays fine fits fits2 in
    rw (session-append turns (quiet answers) b) (
      empty_of _ _ _ left (
          down2
          ∙ ap (λ t. (before.serial_sent ++ before.client.waits) ++ t) no_net
          ∙ append-nil _
          ∙ down),
      empty_of _ _ _ left2 (
          up2
          ∙ ap (λ t. (before.client.sent ++ before.serial_waits) ++ t) no_uart
          ∙ append-nil _
          ∙ up),
    )
