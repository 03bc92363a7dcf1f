-- ===== src/Support/Order.antt =====
-- What `InnerSupport::new` makes: participants in the order of their devices, and the same support
-- again when it is given its own participants.
use coupery_ksnf.Base.{◌≡◌, refl, sym, ◌∙◌, ap, subst, false, List, [], ◌∷◌, map, All, arith}
use coupery_ksnf.Order.{nat_key}
use coupery_ksnf.Outcome.{ok, >>=-passed, fail_if-passed, ok-injective, empty_input}
use coupery_ksnf.Profile.{Profile}
use coupery_ksnf.Shamir.{lagrange_at_zero}
use coupery_ksnf.Sort.{sort_by_key, insert_sorted}
use coupery_ksnf.Sort.Increasing.{
  Increasing, Ascending, sort_by_key-Ascending, sort_by_key-Increasing, sort_by_key-All,
}
use coupery_ksnf.Sort.Distinct.{reject_duplicate_devices-Increasing}
use coupery_ksnf.Support.{
  DeviceParticipant, InnerSupport, inner_support, is_empty, reject_duplicate_devices,
}

module _ (P : Profile) where
  -- What a support that was made says of the participants that it was made of.
  record Made (given : List (DeviceParticipant P)) (s : InnerSupport P) : Type 0 where
    filled : is_empty P given ≡ false
    sorted : s.participants ≡ sort_by_key (λ p. p.device) given
    distinct : reject_duplicate_devices P [] s.participants ≡ ok tt
    row : lagrange_at_zero P (map (λ p. p.node) s.participants) ≡ ok s.coefficients

  inner_support-Made :
      (given : List (DeviceParticipant P)) (s : InnerSupport P)
      → inner_support P given ≡ ok s
      → Made given s
  unfolding inner_support
  inner_support-Made given s h =
      let (filled, h1) = fail_if-passed (is_empty P given) empty_input _ h in
      let (u, distinct, h2) = >>=-passed _ _ h1 in
      let (cs, row, h3) = >>=-passed _ _ h2 in
      let is = ok-injective _ _ h3 in
      subst (Made given) is
        (record { filled = filled; sorted = refl; distinct = distinct; row = row })

  pub inner_support-Increasing :
      (given : List (DeviceParticipant P)) (s : InnerSupport P)
      → inner_support P given ≡ ok s
      → Increasing (λ p. p.device) s.participants
  inner_support-Increasing given s h =
      let made = inner_support-Made given s h in
      reject_duplicate_devices-Increasing P [] s.participants
        (subst (Ascending (λ p. p.device)) (sym made.sorted)
          (sort_by_key-Ascending (λ p. p.device) given))
        made.distinct

  is_empty-insert :
      (p : DeviceParticipant P) (ps : List (DeviceParticipant P))
      → is_empty P (insert_sorted (λ q. q.device) p ps) ≡ false
  unfolding insert_sorted
  is_empty-insert p [] = refl
  is_empty-insert p (q ∷ ps) = ground arith

  is_empty-sort :
      (given : List (DeviceParticipant P))
      → is_empty P (sort_by_key (λ p. p.device) given) ≡ is_empty P given
  unfolding sort_by_key
  is_empty-sort [] = refl
  is_empty-sort (p ∷ ps) = is_empty-insert p (sort_by_key (λ q. q.device) ps)

  pub inner_support-filled :
      (given : List (DeviceParticipant P)) (s : InnerSupport P)
      → inner_support P given ≡ ok s
      → is_empty P s.participants ≡ false
  inner_support-filled given s h =
      let made = inner_support-Made given s h in
      ap (is_empty P) made.sorted ∙ is_empty-sort given ∙ made.filled

  pub inner_support-again :
      (given : List (DeviceParticipant P)) (s : InnerSupport P)
      → inner_support P given ≡ ok s
      → inner_support P s.participants ≡ ok s
  unfolding inner_support
  inner_support-again given s h =
      let made = inner_support-Made given s h in
      let same =
        sort_by_key-Increasing (λ p. p.device) s.participants
          (inner_support-Increasing given s h) in
      let filled = inner_support-filled given s h in
      let distinct = made.distinct in let row = made.row in rw same (ground (arith))

  pub inner_support-All {κ} :
      (F : DeviceParticipant P → Type κ) (given : List (DeviceParticipant P)) (s : InnerSupport P)
      → inner_support P given ≡ ok s
      → All F given
      → All F s.participants
  inner_support-All F given s h each =
      subst (All F) (sym (inner_support-Made given s h).sorted)
        (sort_by_key-All (λ p. p.device) F given each)
