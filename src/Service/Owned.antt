-- ===== src/Service/Owned.antt =====
-- The test for an owner's input that the checks of announcements share.
use lrc.Common.{
  ◌≡◌, Bool, true, false, if◌then◌else◌, List, Option, some, arith, inl, inr, Bool-cases,
  Option-cases, ap, ◌∙◌,
}
use lrc.Outcome.{ok, ◌>>=◌, map_err, >>=-eq-ok, map_err-eq-ok, ok_or-eq-ok}
use lrc.Owner.{TokenPubkeyInfo, TxIn, OwnerCrates, find_with}
use lrc.Owner.Sound.{IsAmong, IsOwners, owner_script_of, find_with-IsOwners}
use lrc.Service.Announcements.{
  AnnouncementStorage, CheckFailure, is_some, allows_freezes, token_info, has_owner,
}

module _ {K : Type 0} (storage : AnnouncementStorage K) (crates : OwnerCrates K) where
  -- What the storage knows of the token, and an input that is its owner's.
  pub record IsOwned (inputs : List TxIn) (token : K) (info : Option (TokenPubkeyInfo K))
      : Type 0 where
    pub stored : storage.get_token_pubkey_info token ≡ some info
    pub owner_input : TxIn
    pub found : find_with crates inputs token info ≡ ok (some owner_input)

  -- An input that spends for the token's owner, by what the storage knows of the token.
  pub record HasOwner (inputs : List TxIn) (token : K) (info : Option (TokenPubkeyInfo K))
      : Type 0 where
    pub stored : storage.get_token_pubkey_info token ≡ some info
    pub owner_input : TxIn
    pub among : IsAmong crates owner_input inputs
    pub owners : IsOwners crates owner_input token (owner_script_of crates info)

  pub IsOwned-HasOwner :
      (inputs : List TxIn) (token : K) (info : Option (TokenPubkeyInfo K))
      → IsOwned inputs token info
      → HasOwner inputs token info
  IsOwned-HasOwner inputs token info h =
      let (among, owners) = find_with-IsOwners crates inputs token info h.owner_input h.found in
      record { stored = h.stored; owner_input = h.owner_input; among = among; owners = owners }

  pub has_owner-IsOwned :
      (inputs : List TxIn) (token : K)
      → has_owner storage crates inputs token ≡ ok true
      → (info : Option (TokenPubkeyInfo K)) × IsOwned inputs token info
  unfolding has_owner
  has_owner-IsOwned inputs token e =
      let (info, asked, e') =
        >>=-eq-ok (token_info storage crates token)
          (λ info. map_err CheckFailure.owner_failed (find_with crates inputs token info) >>= λ o.
            ok (is_some o))
          e in
      let (owner_input, there, e'') =
        >>=-eq-ok (map_err CheckFailure.owner_failed (find_with crates inputs token info))
          (λ o. ok (is_some o)) e' in
      elim (Option-cases owner_input) [
        | inl nobody ↦ absurd (ground (arith, e'', nobody))
        | inr (input, is) ↦ (
          info,
          record {
            stored =
                ok_or-eq-ok (storage.get_token_pubkey_info token) CheckFailure.storage_failed asked;
            owner_input = input;
            found =
                map_err-eq-ok CheckFailure.owner_failed (find_with crates inputs token info)
                  (there ∙ ap ok is);
          },
        )
      ]

  -- An owner that is tested first.
  pub owned_then :
      (inputs : List TxIn) (token : K) (test : Option (TokenPubkeyInfo K) → Bool)
      → (has_owner storage crates inputs token >>= λ owned.
          (let known = token_info storage crates token >>= λ info. ok (test info) in
            if owned then known else ok false))
        ≡ ok true
      → (info : Option (TokenPubkeyInfo K)) × IsOwned inputs token info × (test info ≡ true)
  owned_then inputs token test e =
      let (owned, first, e') = >>=-eq-ok (has_owner storage crates inputs token) _ e in
      elim (Bool-cases owned) [
        | inr nobody ↦ absurd (ground (arith, e', nobody))
        | inl is ↦
            let (info, is_owned) = has_owner-IsOwned inputs token (first ∙ ap ok is) in
            let known : (token_info storage crates token >>= λ i. ok (test i)) ≡ ok true =
              ground (arith, e', is) in
            (info, is_owned, ground (arith, known, is_owned.stored))
      ]

  pub allowed_owner :
      (inputs : List TxIn) (token : K) (info : Option (TokenPubkeyInfo K))
      → token_info storage crates token ≡ ok info
      → allows_freezes info ≡ true
      → has_owner storage crates inputs token ≡ ok true
      → (info : Option (TokenPubkeyInfo K)) × IsOwned inputs token info
        × (allows_freezes info ≡ true)
  allowed_owner inputs token info asked allowed owned =
      let (info', is_owned) = has_owner-IsOwned inputs token owned in
      (info', is_owned, ground (arith, asked, allowed, is_owned.stored))
