-- ===== src/Store/JournalRoundTrip.antt =====
-- A journal's record reads back as the journal.
use coupery_ksnf.Base.{
  ℕ, ◌+◌, ◌^◌, ◌<◌, ◌≡◌, refl, sym, ◌∙◌, ap, subst, ◌&&◌, not, Option, none, some, List, [], ◌∷◌,
  ◌++◌, length, arith, ltb, ◌==◌,
}
use coupery_ksnf.Outcome.{
  ok, fail_if-passed, participant_mismatch, invalid_transcript, ok-injective,
}
use coupery_ksnf.Types.{LeafAttempt}
use coupery_ksnf.Auth.{bytes_eq_iff}
use coupery_ksnf.Encoding.{to_be_bytes}
use coupery_ksnf.Decoding.RoundTrip.{read_slice-append, get_number-to_be_bytes}
use coupery_ksnf.Store.Journal.{
  LeafJournal, journal_new, encode_live, encode_journal, decode_live, decode_journal,
}

module _ (magic : List ℕ) (eight : length magic ≡ 8) (device material next_sequence : ℕ)
    (tag sequence : ℕ) (device_lt : device < 2 ^ 256) (material_lt : material < 2 ^ 256)
    (next_lt : next_sequence < 2 ^ 64) (tag_lt : tag < 256) (sequence_lt : sequence < 2 ^ 64) where
  -- The fields of a record are read back.
  decode_fields :
      (live : Option LeafAttempt) (j : LeafJournal)
      → decode_live device tag sequence ≡ ok live
      → journal_new device material next_sequence live ≡ ok j
      → decode_journal magic (
          magic
          ++ (to_be_bytes 32 device
              ++ (to_be_bytes 32 material
                  ++ (to_be_bytes 8 next_sequence
                      ++ (to_be_bytes 1 tag ++ (to_be_bytes 8 sequence ++ []))))))
        ≡ ok j
  unfolding decode_journal
  decode_fields live j spelled made = rw (
    read_slice-append 8 magic _ 0 eight,
    (bytes_eq_iff magic magic).1 refl,
    get_number-to_be_bytes 32 device _ _ device_lt,
    get_number-to_be_bytes 32 material _ _ material_lt,
    get_number-to_be_bytes 8 next_sequence _ _ next_lt,
    get_number-to_be_bytes 1 tag _ _ tag_lt,
    get_number-to_be_bytes 8 sequence _ _ sequence_lt,
    spelled,
    made,
  )

append_nil : (bytes : List ℕ) → bytes ++ [] ≡ bytes
append_nil [] = refl
append_nil (b ∷ bs) = ap (λ l. b ∷ l) (append_nil bs)

-- The record as its fields, each as a number in its width.
encode_journal-fields :
    (magic : List ℕ) (j : LeafJournal) (tag sequence : ℕ)
    → encode_live j.live ≡ to_be_bytes 1 tag ++ to_be_bytes 8 sequence
    → magic
        ++ (to_be_bytes 32 j.device
            ++ (to_be_bytes 32 j.material
                ++ (to_be_bytes 8 j.next_sequence
                    ++ (to_be_bytes 1 tag ++ (to_be_bytes 8 sequence ++ [])))))
      ≡ encode_journal magic j
unfolding encode_journal
encode_journal-fields magic j tag sequence h = rw (append_nil (to_be_bytes 8 sequence), h)

u8_bytes : (tag : ℕ) → tag < 256 → (bytes : List ℕ) → tag ∷ bytes ≡ to_be_bytes 1 tag ++ bytes
unfolding to_be_bytes
u8_bytes tag h bytes = ap (λ t. t ∷ bytes) (omega arith)

-- A journal that `LeafJournal::new` accepts reads back from its record, if its identifiers fit in
-- 32 bytes and its sequence in 8, under a magic number of 8 bytes.
pub decode_journal-encode_journal :
    (magic : List ℕ) (device material next_sequence : ℕ) (live : Option LeafAttempt)
    (j : LeafJournal)
    → length magic ≡ 8
    → device < 2 ^ 256
    → material < 2 ^ 256
    → next_sequence < 2 ^ 64
    → journal_new device material next_sequence live ≡ ok j
    → decode_journal magic (encode_journal magic j) ≡ ok j
unfolding journal_new decode_live
decode_journal-encode_journal magic device material next_sequence none j eight d_lt m_lt n_lt made =
    let k : LeafJournal = record {
      device = device;
      material = material;
      next_sequence = next_sequence;
      live = none;
    } in
    let is = ok-injective k j made in
    subst (λ x. decode_journal magic (encode_journal magic x) ≡ ok x) is
      (subst (λ bytes. decode_journal magic bytes ≡ ok k)
        (encode_journal-fields magic k 0 0 (u8_bytes 0 (omega arith) (to_be_bytes 8 0)))
        (decode_fields magic eight device material next_sequence 0 0 d_lt m_lt n_lt (omega arith)
          (omega arith) none k refl refl))
decode_journal-encode_journal magic device material next_sequence (some attempt) j eight d_lt m_lt
      n_lt made =
    let (ours, h1) = fail_if-passed (not (attempt.device == device)) participant_mismatch _ made in
    let (latest, h2) =
      fail_if-passed
        (not (ltb (attempt.sequence + 1) (2 ^ 64) && attempt.sequence + 1 == next_sequence))
        invalid_transcript _ h1 in
    let k : LeafJournal = record {
      device = device;
      material = material;
      next_sequence = next_sequence;
      live = some attempt;
    } in
    let is = ok-injective k j h2 in
    let named : attempt ≡ record { device = device; sequence = attempt.sequence } =
      ap (λ d. record { device = d; sequence = attempt.sequence }) (ground (arith, ours)) in
    subst (λ x. decode_journal magic (encode_journal magic x) ≡ ok x) is
      (subst (λ bytes. decode_journal magic bytes ≡ ok k)
        (encode_journal-fields magic k 1 attempt.sequence
          (u8_bytes 1 (omega arith) (to_be_bytes 8 attempt.sequence)))
        (decode_fields magic eight device material next_sequence 1 attempt.sequence d_lt m_lt n_lt
          (omega arith) (ground arith) (some attempt) k (ap (λ a. ok (some a)) (sym named))
          (made ∙ ap ok (sym is))))
