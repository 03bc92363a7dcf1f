-- ===== src/Leaf/Bundles.antt =====
-- The bundles that `activate_inner_bundle` of leaf.rs accepts.
use coupery_ksnf.Base.{
  ℕ, ◌<◌, ◌≡◌, ◌≢◌, refl, ◌∙◌, ap, subst, false, not, Option, none, some, List, [], ◌∷◌, length,
  arith, inl, inr, Bool-cases, ◌==◌,
}
use mathlib.Core.Option.{some-injective}
use mathlib.Core.List.{Memᴰ}
use mathlib.Core.List.Memᴰ.{head, tail}
use coupery_ksnf.Order.{nat_key}
use coupery_ksnf.Map.{Map, lookup}
use coupery_ksnf.Outcome.{
  ok, >>=-passed, fail_if-passed, or_fail-passed, ok-injective, epoch_mismatch, empty_input,
}
use coupery_ksnf.Types.{KeyEpoch}
use coupery_ksnf.Profile.{Profile}
use coupery_ksnf.Shamir.{anchor_share}
use coupery_ksnf.Dealing.{InstalledShare, SingleShape, device_node, points_constant}
use coupery_ksnf.Leaf.State.{LeafRegistry, VaultState, IdentityMap, MemberMap}
use coupery_ksnf.Leaf.Install.{identity_map, member_map}
use coupery_ksnf.Leaf.Activate.{
  bad_member, other_epoch, check_members, next_anchors, write_anchors, accept_bundle, single_of,
  misfits,
}

module _ (P : Profile) (r : LeafRegistry P) where
  -- The member of a bundle that is for one vault.
  pub record MemberFor (identity : InstalledShare P) (members : List (KeyEpoch × InstalledShare P))
      (out : Option ℕ) (v : ℕ) (state : VaultState P) (written : Option (VaultState P))
      : Type 0 where
    pub e : KeyEpoch
    pub share : InstalledShare P
    pub listed : Memᴰ (e, share) members
    pub names : e ≡ record {
      outer = state.outer_epoch;
      inner = e.inner;
      anchor = record {
        vault = v;
        person = r.person;
        identity = identity.handle;
        member = identity.handle;
      };
    }
    pub inner : out ≡ some e.inner
    pub later : r.inner_epoch < e.inner
    pub entry : MemberMap P
    pub writes :
        written
        ≡ some (record state {
          anchor = anchor_share P share.share identity.share;
          member_handle = identity.handle;
          member_map = entry;
        })

  -- What the loop has checked of one member.
  good_member :
      (identity : InstalledShare P) (inner : Option ℕ) (e : KeyEpoch) (share : InstalledShare P)
      (v : ℕ) (state : VaultState P)
      → bad_member P r identity inner (e, share) (v, state) ≡ false
      → (e ≡ record {
        outer = state.outer_epoch;
        inner = e.inner;
        anchor = record {
          vault = v;
          person = r.person;
          identity = identity.handle;
          member = identity.handle;
        };
      })
        × (r.inner_epoch < e.inner)
        × (other_epoch P inner e.inner ≡ false)
  unfolding bad_member
  good_member identity inner e share v state h = ground arith

  record Checked (identity : InstalledShare P) (inner : Option ℕ) (m : KeyEpoch × InstalledShare P)
      (ms : List (KeyEpoch × InstalledShare P)) (v : ℕ × VaultState P) (vs : Map ℕ (VaultState P))
      (out : Option ℕ) : Type 0 where
    good : bad_member P r identity inner m v ≡ false
    rest : check_members P r identity (some m.0.inner) ms vs ≡ ok out

  check_members-Checked :
      (identity : InstalledShare P) (inner : Option ℕ) (m : KeyEpoch × InstalledShare P)
      (ms : List (KeyEpoch × InstalledShare P)) (v : ℕ × VaultState P) (vs : Map ℕ (VaultState P))
      (out : Option ℕ)
      → check_members P r identity inner (m ∷ ms) (v ∷ vs) ≡ ok out
      → Checked identity inner m ms v vs out
  unfolding check_members
  check_members-Checked identity inner m ms v vs out h =
      let (good, h1) = fail_if-passed (bad_member P r identity inner m v) epoch_mismatch _ h in
      let (constant, _, h2) = >>=-passed (points_constant P m.1.points) _ h1 in
      let (_, rest) =
        fail_if-passed (not (P.element_eq constant v.1.member_point)) epoch_mismatch _ h2 in
      record { good = good; rest = rest }

  check_members-keeps :
      (identity : InstalledShare P) (inner : ℕ) (ms : List (KeyEpoch × InstalledShare P))
      (vs : Map ℕ (VaultState P)) (out : Option ℕ)
      → check_members P r identity (some inner) ms vs ≡ ok out
      → out ≡ some inner
  unfolding check_members
  check_members-keeps identity inner [] vs out h = cc
  check_members-keeps identity inner (m ∷ ms) [] out h = cc
  check_members-keeps identity inner (m ∷ ms) (v ∷ vs) out h =
      let c = check_members-Checked identity (some inner) m ms v vs out h in
      let (_, _, agrees) = good_member identity (some inner) m.0 m.1 v.0 v.1 c.good in
      check_members-keeps identity m.0.inner ms vs out c.rest ∙ ap some (ground (arith, agrees))

  -- The loops over the members and the vaults, at one vault.
  pub members-MemberFor :
      (identity : InstalledShare P) (shape : SingleShape P) (inner : Option ℕ)
      (ms : List (KeyEpoch × InstalledShare P)) (vs : Map ℕ (VaultState P)) (out : Option ℕ)
      (anchors : List (ℕ × P.Scalar × MemberMap P))
      → length ms ≡ length vs
      → check_members P r identity inner ms vs ≡ ok out
      → next_anchors P shape identity.share ms ≡ ok anchors
      → (v : ℕ) (state : VaultState P) → lookup v vs ≡ some state
      → MemberFor identity ms out v state (lookup v (write_anchors P identity.handle vs anchors))
  unfolding check_members next_anchors write_anchors
  members-MemberFor identity shape inner ms [] out anchors l checks nexts v state found = cc
  members-MemberFor identity shape inner [] (w ∷ vs) out anchors l checks nexts v state found =
      absurd (omega (arith, l))
  members-MemberFor identity shape inner (m ∷ ms) ((w, old) ∷ vs) out anchors l checks nexts v state
        found =
      let c = check_members-Checked identity inner m ms (w, old) vs out checks in
      let (named, later, _) = good_member identity inner m.0 m.1 w old c.good in
      let (entry, mapped, nexts1) = >>=-passed (member_map P shape m.1.points) _ nexts in
      let (rest, nexts2, nexts3) = >>=-passed (next_anchors P shape identity.share ms) _ nexts1 in
      subst
        (λ list.
          MemberFor identity (m ∷ ms) out v state
            (lookup v (write_anchors P identity.handle ((w, old) ∷ vs) list)))
        (ok-injective _ _ nexts3)
        (elim (Bool-cases (v == w)) [
          | inl here ↦
              let there : old ≡ state = ground arith in
              let is : v ≡ w = ground arith in
              record {
                e = m.0;
                share = m.1;
                listed = head refl;
                names = named ∙ cc;
                inner = check_members-keeps identity m.0.inner ms vs out c.rest;
                later = later;
                entry = entry;
                writes = ground arith;
              }
          | inr elsewhere ↦
              let ih =
                members-MemberFor identity shape (some m.0.inner) ms vs out rest (omega (arith, l))
                  c.rest nexts2 v state (ground arith) in
              record {
                e = ih.e;
                share = ih.share;
                listed = tail ih.listed;
                names = ih.names;
                inner = ih.inner;
                later = ih.later;
                entry = ih.entry;
                writes = ground (arith, ih.writes);
              }
        ])

  -- The inner epoch of an accepted bundle is later than the registry's.
  check_members-later :
      (identity : InstalledShare P) (ms : List (KeyEpoch × InstalledShare P))
      (vs : Map ℕ (VaultState P)) (inner : ℕ)
      → check_members P r identity none ms vs ≡ ok (some inner)
      → r.inner_epoch < inner
  unfolding check_members
  check_members-later identity [] vs inner h = cc
  check_members-later identity (m ∷ ms) [] inner h = cc
  check_members-later identity (m ∷ ms) (v ∷ vs) inner h =
      let c = check_members-Checked identity none m ms v vs (some inner) h in
      let (_, later, _) = good_member identity none m.0 m.1 v.0 v.1 c.good in
      let keeps = check_members-keeps identity m.0.inner ms vs (some inner) c.rest in
      ground (arith, some-injective _ _ keeps)

  -- What an accepted bundle has passed.
  pub record Accepted (identity : InstalledShare P) (members : List (KeyEpoch × InstalledShare P))
      (m : IdentityMap P) (inner : ℕ) (anchors : List (ℕ × P.Scalar × MemberMap P)) : Type 0 where
    pub shape : SingleShape P
    pub mapped : identity_map P shape identity.points ≡ ok m
    pub counted : length members ≡ length r.vaults
    pub new_handle : identity.handle ≢ r.identity_handle
    pub checks : check_members P r identity none members r.vaults ≡ ok (some inner)
    pub nexts : next_anchors P shape identity.share members ≡ ok anchors

  pub accept_bundle-Accepted :
      (identity : InstalledShare P) (members : List (KeyEpoch × InstalledShare P))
      (m : IdentityMap P) (inner : ℕ) (anchors : List (ℕ × P.Scalar × MemberMap P))
      → accept_bundle P r identity members ≡ ok (m, inner, anchors)
      → Accepted identity members m inner anchors
  unfolding accept_bundle
  accept_bundle-Accepted identity members m inner anchors h =
      let (shape, _, h1) = >>=-passed (single_of P identity) _ h in
      let (map, mapped, h2) = >>=-passed (identity_map P shape identity.points) _ h1 in
      let (node, _, h3) = >>=-passed (device_node P shape r.device) _ h2 in
      let (fits, h4) = fail_if-passed (misfits P r identity members node) epoch_mismatch _ h3 in
      let (constant, _, h5) = >>=-passed (points_constant P identity.points) _ h4 in
      let (_, h6) =
        fail_if-passed (not (P.element_eq constant r.identity_key)) epoch_mismatch _ h5 in
      let (out, checks, h7) = >>=-passed (check_members P r identity none members r.vaults) _ h6 in
      let (next, is_next, h8) = or_fail-passed out empty_input _ h7 in
      let (found, nexts, h9) = >>=-passed (next_anchors P shape identity.share members) _ h8 in
      let is = ok-injective _ _ h9 in
      record {
        shape = shape;
        mapped = mapped ∙ ap (λ t. ok t.0) is;
        counted = ground arith;
        new_handle = ground arith;
        checks = checks ∙ ap ok (is_next ∙ ap (λ t. some t.1) is);
        nexts = nexts ∙ ap (λ t. ok t.2) is;
      }

  pub accept_bundle-later :
      (identity : InstalledShare P) (members : List (KeyEpoch × InstalledShare P))
      (m : IdentityMap P) (inner : ℕ) (anchors : List (ℕ × P.Scalar × MemberMap P))
      → accept_bundle P r identity members ≡ ok (m, inner, anchors)
      → r.inner_epoch < inner
  accept_bundle-later identity members m inner anchors h =
      let a = accept_bundle-Accepted identity members m inner anchors h in
      check_members-later identity members r.vaults inner a.checks
