-- ===== src/Protocol/Wire.antt =====
-- A frame of shared/protocol.h as it stands in the receiver's buffer, and what its fields read.
use bootloader_ota.Base.{
  ℕ, ◌+◌, ◌<◌, ◌^◌, ◌≡◌, refl, ap, arith, List, ◌∷◌, ◌++◌, length, take, drop, get_or-append,
  take-length-append, le16, le32, byte_at, word16_at, word32_at, word16-le16, word32-le32,
}
use bootloader_ota.Crc.{CrcUnit}
use bootloader_ota.Protocol.State.{frame_magic_0, frame_magic_1}
use bootloader_ota.Protocol.Send.{frame_body}

-- A buffer that begins with a frame, up to its payload.
abbrev pub head_of : ℕ → ℕ → ℕ → List ℕ
head_of cmd seq len = frame_magic_0 ∷ frame_magic_1 ∷ cmd ∷ le16 len ++ le16 seq

pub head-len_field :
    (cmd seq len : ℕ) (r : List ℕ) → len < 2 ^ 16 → word16_at (head_of cmd seq len ++ r) 3 ≡ len
unfolding word16_at
head-len_field cmd seq len r h = word16-le16 len h

head-seq_field :
    (cmd seq len : ℕ) (r : List ℕ) → seq < 2 ^ 16 → word16_at (head_of cmd seq len ++ r) 5 ≡ seq
unfolding word16_at
head-seq_field cmd seq len r h = word16-le16 seq h

behind_word : (xs r : List ℕ) (v : ℕ) → v < 2 ^ 32 → word32_at (xs ++ (le32 v ++ r)) (length xs) ≡ v
unfolding word32_at
behind_word xs r v h =
    let at_end : length xs ≡ length xs + 0 = omega arith in
    let bytes = le32 v ++ r in
    rw
      (
        get_or-append xs bytes 1 0,
        get_or-append xs bytes 2 0,
        get_or-append xs bytes 3 0,
        ap (λ k. byte_at (xs ++ bytes) k) at_end,
        get_or-append xs bytes 0 0,
      )
      (word32-le32 v h)

module _ (unit : CrcUnit) where
  -- What the end of a frame reads from a buffer that begins with one.
  pub record IsHolding (cmd seq c : ℕ) (bs f : List ℕ) : Type 0 where
    pub command : byte_at f 2 ≡ cmd
    pub len : word16_at f 3 ≡ length bs
    pub number : word16_at f 5 ≡ seq
    pub payload : take (length bs) (drop 7 f) ≡ bs
    pub covered : take (5 + length bs) (drop 2 f) ≡ frame_body unit cmd seq bs
    pub crc : word32_at f (7 + length bs) ≡ c

  pub IsHolding-framed :
      (cmd seq c : ℕ) (bs r : List ℕ)
      → seq < 2 ^ 16
      → length bs < 2 ^ 16
      → c < 2 ^ 32
      → IsHolding cmd seq c bs (head_of cmd seq (length bs) ++ (bs ++ (le32 c ++ r)))
  IsHolding-framed cmd seq c bs r hs hl hc =
      let body = frame_body unit cmd seq bs in
      let body_length : 5 + length bs ≡ length body = omega arith in
      let head_length : 7 + length bs ≡ length (head_of cmd seq (length bs) ++ bs) = omega arith in
      record {
        command = refl;
        len = head-len_field cmd seq (length bs) (bs ++ (le32 c ++ r)) hl;
        number = head-seq_field cmd seq (length bs) (bs ++ (le32 c ++ r)) hs;
        payload = take-length-append bs (le32 c ++ r);
        covered = rw body_length (take-length-append body (le32 c ++ r));
        crc = rw head_length (behind_word (head_of cmd seq (length bs) ++ bs) r c hc);
      }
