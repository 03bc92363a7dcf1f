-- ===== src/Transcript/Root.antt =====
-- `RootPrepackage` and `RootPackage` of transcript.rs: their constructors, parsers and checks.
use coupery_ksnf.Base.{
  ℕ, Bool, true, ◌&&◌, not, List, [], ◌∷◌, find, length, list_eq, ◌==◌, leb, if◌then◌else◌,
}
use coupery_ksnf.Order.{nat_key}
use coupery_ksnf.Sort.{sort_by_key}
use coupery_ksnf.Outcome.{
  Result, ok, err, ◌>>=◌, ◌>>◌, fail_if, or_fail, empty_input, duplicate_slot, support_mismatch,
  invalid_transcript, participant_not_found,
}
use coupery_ksnf.Profile.{Profile}
use coupery_ksnf.Auth.{bytes_eq}
use coupery_ksnf.Support.{PersonParticipant, OuterSupport, is_empty}
use coupery_ksnf.Signing.{has_adjacent}
use coupery_ksnf.Reader.{read_all}
use coupery_ksnf.Transcript.{
  RootContext, MemberRecord, RootEntry, MemberNonce, RootPrepackage, RootPackage,
}
use coupery_ksnf.Transcript.Write.{prepackage_to_bytes, package_to_bytes, records_of}
use coupery_ksnf.Transcript.Read.{decode_prepackage, decode_package}
use coupery_ksnf.Transcript.Body.{record_eq}

-- `ensure_sorted_records` and `ensure_sorted_slots`.
unfoldable pub ensure_sorted : {A : Type 0} → (A → ℕ) → List A → Result (Unit {0})
ensure_sorted slot [] = ok tt
ensure_sorted slot (x ∷ []) = ok tt
ensure_sorted slot (x ∷ y ∷ rest) =
    let later = ensure_sorted slot (y ∷ rest) in
    if leb (slot y) (slot x)
    then (if slot x == slot y then err duplicate_slot else err invalid_transcript)
    else later

module _ (P : Profile) where
  open P use {Scalar, Element, scalar_eq, element_eq}

  -- The loop of `validate_support` of either package.
  unfoldable pub same_members : List (MemberRecord P) → List (PersonParticipant P) → Bool
  same_members (r ∷ rs) (p ∷ ps) =
      r.slot == p.slot && (element_eq r.member p.member && same_members rs ps)
  same_members _ _ = true

  unfoldable pub validate_records : List (MemberRecord P) → OuterSupport P → Result (Unit {0})
  unfolding same_members
  validate_records records support = do
    fail_if (not (length records == length support.participants)) support_mismatch
    fail_if (not (same_members records support.participants)) support_mismatch
    ok tt

  -- `RootPrepackage::validate_support`
  abbrev pub prepackage_validate_support : RootPrepackage P → OuterSupport P → Result (Unit {0})
  prepackage_validate_support p support = validate_records p.records support

  -- `RootPackage::validate_support`
  abbrev pub package_validate_support : RootPackage P → OuterSupport P → Result (Unit {0})
  package_validate_support p support = validate_records (records_of P p.entries) support

  -- `RootPrepackage::new`
  unfoldable pub prepackage_new :
      Element
      → List ℕ
      → RootContext
      → OuterSupport P
      → List (MemberRecord P)
      → Result (RootPrepackage P)
  unfolding validate_records
  prepackage_new key message context support given = do
    fail_if (is_empty P given) empty_input
    let records = sort_by_key (λ r. r.slot) given
    fail_if (has_adjacent P (λ r. r.slot) records) duplicate_slot
    let prepackage : RootPrepackage P = record {
      key = key;
      message = message;
      context = context;
      records = records;
    }
    prepackage_validate_support prepackage support
    bytes ← prepackage_to_bytes P prepackage
    ok prepackage

  -- `RootPrepackage::from_bytes`
  unfoldable pub prepackage_from_bytes : List ℕ → Result (RootPrepackage P)
  prepackage_from_bytes bytes = do
    prepackage ← read_all (decode_prepackage P) bytes
    ensure_sorted (λ r. r.slot) prepackage.records
    ok prepackage

  -- `RootPrepackage::record`
  unfoldable pub prepackage_record : RootPrepackage P → ℕ → Result (MemberRecord P)
  prepackage_record p slot = or_fail (find (λ r. r.slot == slot) p.records) participant_not_found

  -- The zip of records and nonces in `RootPackage::finalize`.
  unfoldable pub join_nonces :
      List (MemberRecord P) → List (MemberNonce P) → Result (List (RootEntry P))
  join_nonces (r ∷ rs) (n ∷ ns) = do
    fail_if (not (r.slot == n.slot)) support_mismatch
    entries ← join_nonces rs ns
    ok (record { committed = r; nonce = n.nonce } ∷ entries)
  join_nonces _ _ = ok []

  -- `RootPackage::finalize`
  unfoldable pub package_finalize :
      RootPrepackage P → OuterSupport P → List (MemberNonce P) → Result (RootPackage P)
  unfolding validate_records
  package_finalize prepackage support given = do
    prepackage_validate_support prepackage support
    let nonces = sort_by_key (λ n. n.slot) given
    fail_if (not (length nonces == length prepackage.records)) support_mismatch
    fail_if (has_adjacent P (λ n. n.slot) nonces) duplicate_slot
    entries ← join_nonces prepackage.records nonces
    let root : RootPackage P = record {
      key = prepackage.key;
      message = prepackage.message;
      context = prepackage.context;
      entries = entries;
    }
    bytes ← package_to_bytes P root
    ok root

  abbrev pub nonces_of : List (RootEntry P) → List (MemberNonce P)
  nonces_of [] = []
  nonces_of (e ∷ es) = record { slot = e.committed.slot; nonce = e.nonce } ∷ nonces_of es

  -- `RootPackage::new`
  unfoldable pub package_new :
      Element → List ℕ → RootContext → OuterSupport P → List (RootEntry P) → Result (RootPackage P)
  unfolding prepackage_new package_finalize
  package_new key message context support entries = do
    prepackage ← prepackage_new key message context support (records_of P entries)
    package_finalize prepackage support (nonces_of entries)

  -- `RootPackage::from_bytes`
  unfoldable pub package_from_bytes : List ℕ → Result (RootPackage P)
  package_from_bytes bytes = do
    root ← read_all (decode_package P) bytes
    ensure_sorted (λ e. e.committed.slot) root.entries
    ok root

  -- `RootPackage::entry`
  unfoldable pub package_entry : RootPackage P → ℕ → Result (RootEntry P)
  package_entry p slot =
      or_fail (find (λ e. e.committed.slot == slot) p.entries) participant_not_found

  -- `RootPackage::prepackage`
  abbrev pub package_prepackage : RootPackage P → RootPrepackage P
  package_prepackage p = record {
    key = p.key;
    message = p.message;
    context = p.context;
    records = records_of P p.entries;
  }

  abbrev pub context_eq : RootContext → RootContext → Bool
  context_eq a b = a.vault == b.vault && (a.epoch == b.epoch && a.ceremony == b.ceremony)

  -- The derived `PartialEq` of `RootPrepackage`.
  unfoldable pub prepackage_eq : RootPrepackage P → RootPrepackage P → Bool
  prepackage_eq p q =
      element_eq p.key q.key
      && (bytes_eq p.message q.message
          && (context_eq p.context q.context && list_eq (record_eq P) p.records q.records))
