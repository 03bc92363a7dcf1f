-- ===== src/Store/Journal.antt =====
-- `LeafJournal` of leaf/store.rs, and its record of 89 bytes in leaf/store/record.rs. The magic
-- number is the profile's, and the material of a journal is named by 32 bytes, as a number.
use coupery_ksnf.Base.{
  ℕ, ◌+◌, ◌^◌, Bool, true, ◌&&◌, not, Option, none, some, List, ◌++◌, ltb, ◌==◌, if◌then◌else◌,
}
use coupery_ksnf.Outcome.{
  Result, ok, err, ◌>>=◌, ◌>>◌, fail_if, participant_mismatch, invalid_transcript,
  protocol_mismatch,
}
use coupery_ksnf.Types.{LeafAttempt, attempt_eq}
use coupery_ksnf.Encoding.{put_u8, put_u64, put_id}
use coupery_ksnf.Decoding.{decoder, read_slice, get_number, finish}
use coupery_ksnf.Auth.{bytes_eq}

pub record LeafJournal : Type 0 where
  pub device : ℕ
  pub material : ℕ
  pub next_sequence : ℕ
  pub live : Option LeafAttempt

-- `LeafJournal::new`; the sequence is a `u64`.
unfoldable pub journal_new : ℕ → ℕ → ℕ → Option LeafAttempt → Result LeafJournal
journal_new device material next_sequence none =
    ok (record { device = device; material = material; next_sequence = next_sequence; live = none })
journal_new device material next_sequence (some attempt) = do
  fail_if (not (attempt.device == device)) participant_mismatch
  fail_if (not (ltb (attempt.sequence + 1) (2 ^ 64) && attempt.sequence + 1 == next_sequence))
      invalid_transcript
  ok (record {
    device = device;
    material = material;
    next_sequence = next_sequence;
    live = some attempt;
  })

-- `self.live != Some(attempt)`
abbrev pub not_live : Option LeafAttempt → LeafAttempt → Bool
not_live none attempt = true
not_live (some l) attempt = not (attempt_eq l attempt)

-- `LeafJournal::is_closed`
unfoldable pub journal_is_closed : LeafJournal → LeafAttempt → Bool
journal_is_closed j attempt =
    attempt.device == j.device && (ltb attempt.sequence j.next_sequence && not_live j.live attempt)

abbrev pub encode_live : Option LeafAttempt → List ℕ
encode_live none = put_u8 0 ++ put_u64 0
encode_live (some attempt) = put_u8 1 ++ put_u64 attempt.sequence

-- `encode_journal`; the source writes the same bytes into an array of 89 zeros.
unfoldable pub encode_journal : List ℕ → LeafJournal → List ℕ
encode_journal magic j =
    magic
    ++ (put_id j.device ++ (put_id j.material ++ (put_u64 j.next_sequence ++ encode_live j.live)))

-- The live attempt that the tag and the sequence of a record spell.
unfoldable pub decode_live : ℕ → ℕ → ℕ → Result (Option LeafAttempt)
decode_live device tag sequence =
    if tag == 0 && sequence == 0
    then ok none
    else if tag == 1
    then ok (some (record { device = device; sequence = sequence }))
    else err invalid_transcript

-- `decode_journal`
unfoldable pub decode_journal : List ℕ → List ℕ → Result LeafJournal
unfolding read_slice get_number finish decode_live journal_new
decode_journal magic bytes = do
  (found, d1) ← read_slice 8 (decoder bytes)
  fail_if (not (bytes_eq found magic)) protocol_mismatch
  (device, d2) ← get_number 32 d1
  (material, d3) ← get_number 32 d2
  (next_sequence, d4) ← get_number 8 d3
  (tag, d5) ← get_number 1 d4
  (sequence, d6) ← get_number 8 d5
  live ← decode_live device tag sequence
  finish d6
  journal_new device material next_sequence live
