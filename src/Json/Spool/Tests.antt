-- ===== src/Json/Spool/Tests.antt =====
-- Runs of the hash (src/state/outbox-json.ts), with the bytes themselves as the digest.
use openwebui_gjc_adapter.Json.Spool.{Disk, Hasher, hash_canonical_stream}
use openwebui_gjc_adapter.Metadata.{decimal}
use openwebui_gjc_adapter.Json.Spool.Writes.{IsLawful}
use openwebui_gjc_adapter.Json.Spool.Digest.{Hashes, hash_canonical_stream-Hashes}
use openwebui_gjc_adapter.Prelude.{
  ◌≡◌, refl, ℕ, [], ◌∷◌, Text, codes, ok, Result, arith, ltb, if◌then◌else◌,
}

-- At most two bytes in a call.
abbrev at_most_two : ℕ → ℕ → Result Text ℕ
at_most_two k n = ok (if ltb n 2 then n else 2)

abbrev disk : Disk
disk = record { create = ok tt; accept = at_most_two; give = at_most_two }

abbrev hasher : Hasher
hasher = record { utf8 = λ t. t; sha256_hex = λ bytes. bytes }

disk-IsLawful : IsLawful disk
disk-IsLawful = record {
  accepts = λ k n m h. ground arith;
  gives = λ k n m h. ground arith;
  ends = λ k n h. ground arith;
}

small : hash_canonical_stream disk hasher (codes "ab" ∷ codes "c" ∷ []) ≡ ok (codes "3:abc;")
unfolding hash_canonical_stream decimal
small = refl

hash_canonical_stream-Hashes_example :
    Hashes disk disk-IsLawful hasher
      (codes "ab" ∷ codes "c" ∷ [])
      (hash_canonical_stream disk hasher (codes "ab" ∷ codes "c" ∷ []))
hash_canonical_stream-Hashes_example =
    hash_canonical_stream-Hashes disk disk-IsLawful hasher (codes "ab" ∷ codes "c" ∷ [])
