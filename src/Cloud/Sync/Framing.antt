-- ===== src/Cloud/Sync/Framing.antt =====
-- The framing of a chunk against a reader of the format that Cloud/src/cloud_sync.py names: a 4-byte
-- big-endian length header before each blob.
use auto_robotic_arms.Base.{
  ℕ, suc, ◌+◌, ◌*◌, ◌/◌, ◌%◌, ◌^◌, ◌<◌, ◌≡◌, refl, ap, true, List, [], ◌∷◌, ◌++◌, Option, none,
  some, arith, ltb, leb, if◌then◌else◌, length, length-append, take, drop, map, All,
}
use auto_robotic_arms.Python.{ok}
use auto_robotic_arms.Cloud.Telemetry.{TelemetryRow}
use auto_robotic_arms.Cloud.Sync.{length_header, raw_buffer}

abbrev prepend : List ℕ → Option (List (List ℕ)) → Option (List (List ℕ))
prepend blob none = none
prepend blob (some blobs) = some (blob ∷ blobs)

-- The reader: at most `fuel` frames, and nothing left over.
pub read_frames : ℕ → List ℕ → Option (List (List ℕ))
read_frames fuel [] = some []
read_frames (suc fuel) (b0 ∷ b1 ∷ b2 ∷ b3 ∷ rest) =
    let n = b0 * 2 ^ 24 + b1 * 2 ^ 16 + b2 * 2 ^ 8 + b3 in
    let more = read_frames fuel (drop n rest) in
    if leb n (length rest) then prepend (take n rest) more else none
read_frames _ _ = none

take-length-append : (xs ys : List ℕ) → take (length xs) (xs ++ ys) ≡ xs
take-length-append [] ys = refl
take-length-append (x ∷ xs) ys = ap (λ r. x ∷ r) (take-length-append xs ys)

drop-length-append : (xs ys : List ℕ) → drop (length xs) (xs ++ ys) ≡ ys
drop-length-append [] ys = refl
drop-length-append (x ∷ xs) ys = drop-length-append xs ys

header_value :
    (n : ℕ)
    → n < 2 ^ 32
    → n / 2 ^ 24 * 2 ^ 24 + n / 2 ^ 16 % 256 * 2 ^ 16 + n / 2 ^ 8 % 256 * 2 ^ 8 + n % 256 ≡ n
header_value n h = omega arith

abbrev four_bytes : ℕ → List ℕ
four_bytes n = n / 2 ^ 24 ∷ n / 2 ^ 16 % 256 ∷ n / 2 ^ 8 % 256 ∷ n % 256 ∷ []

length_header-some : (n : ℕ) → n < 2 ^ 32 → length_header n ≡ some (four_bytes n)
unfolding length_header
length_header-some n h = let fits : ltb n (2 ^ 32) ≡ true = ground arith in rw fits

-- One frame in front of any rest.
read_frames-frame :
    (fuel : ℕ) (blob rest : List ℕ)
    → length blob < 2 ^ 32
    → read_frames (suc fuel) (four_bytes (length blob) ++ (blob ++ rest))
      ≡ prepend blob (read_frames fuel rest)
unfolding read_frames
read_frames-frame fuel blob rest small =
    let fits : leb (length blob) (length (blob ++ rest)) ≡ true =
      ground (arith, length-append {0} blob rest) in
    rw (
      header_value (length blob) small,
      fits,
      take-length-append blob rest,
      drop-length-append blob rest,
    )

-- `r.left_arm_protobuf_blob or b""`
abbrev pub blob_of : TelemetryRow → List ℕ
blob_of r = r.left_arm_protobuf_blob

-- Blobs shorter than 4 GiB are always packed, and the reader gets exactly them back, in order.
pub raw_buffer_roundtrip :
    (records : List TelemetryRow)
    → All (λ r. length (blob_of r) < 2 ^ 32) records
    → (raw : List ℕ) × (raw_buffer records ≡ ok raw)
      × (read_frames (length records) raw ≡ some (map blob_of records))
unfolding raw_buffer
raw_buffer_roundtrip [] small = ([], refl, unfold read_frames in refl)
raw_buffer_roundtrip (r ∷ records) small =
    let (rest, packed, read) = raw_buffer_roundtrip records small.1 in
    (
      four_bytes (length (blob_of r)) ++ (blob_of r ++ rest),
      rw (length_header-some (length (blob_of r)) small.0, packed) refl,
      rw (read_frames-frame (length records) (blob_of r) rest small.0, read) refl,
    )
