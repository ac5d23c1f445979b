-- ===== src/Service/Permissions.antt =====
-- The rules for announcements of a token, by what is known of it.
use lrc.Common.{
  ◌+◌, ◌%◌, ◌^◌, ◌==◌, ◌≤◌, none, refl, sym, subst, Option-cases, ◌≡◌, ◌⊎◌, true, false, Option,
  some, arith, inl, inr, Bool-cases, ap, ◌∙◌,
}
use mathlib.Core.Option.{some-injective}
use lrc.Announcements.TokenPubkey.{TokenPubkeyAnnouncement}
use lrc.Announcements.TokenLogo.{TokenLogoAnnouncement}
use lrc.Announcements.Issue.{IssueAnnouncement}
use lrc.Announcements.Message.{
  Announcement, token_logo, token_pubkey, tx_freeze, pubkey_freeze, issue, transfer_ownership,
}
use lrc.Owner.{TokenPubkeyInfo}
use lrc.Service.Announcements.{allows_freezes, exceeds_supply, may_announce, is_announced}

-- No announcement of the token forbids freezes.
abbrev pub Freezable : {K : Type 0} → Option (TokenPubkeyInfo K) → Type 0
Freezable {K} info =
    (i : TokenPubkeyInfo K) (announced : TokenPubkeyAnnouncement K)
    → info ≡ some i
    → i.announcement ≡ some announced
    → announced.is_freezable ≡ true

-- What the rules ask of what is known of the token. A first announcement must leave room for what is
-- issued already, a logo needs an announcement, a freeze must not be forbidden by one, and an issue keeps
-- within the maximal supply, if there is one: the new supply is a u128 that wraps.
abbrev pub Permitted : {K : Type 0} → Option (TokenPubkeyInfo K) → Announcement K → Type 0
Permitted {K} info (token_pubkey a) =
    (i : TokenPubkeyInfo K)
    → info ≡ some i
    → (i.announcement ≡ none) × ((a.max_supply ≡ 0) ⊎ (i.total_supply ≤ a.max_supply))
Permitted {K} info (token_logo a) =
    (i : TokenPubkeyInfo K) × (announced : TokenPubkeyAnnouncement K) × (info ≡ some i)
    × (i.announcement ≡ some announced)
Permitted info (tx_freeze a) = Freezable info
Permitted info (pubkey_freeze a) = Freezable info
Permitted {K} info (issue a) =
    (i : TokenPubkeyInfo K) (announced : TokenPubkeyAnnouncement K)
    → info ≡ some i
    → i.announcement ≡ some announced
    → (announced.max_supply ≡ 0) ⊎ ((i.total_supply + a.amount) % 2 ^ 128 ≤ announced.max_supply)
Permitted info (transfer_ownership a) = Unit

pub may_announce-Permitted :
    {K : Type 0} (info : Option (TokenPubkeyInfo K)) (a : TokenPubkeyAnnouncement K)
    → may_announce info a.max_supply ≡ true
    → Permitted info (token_pubkey a)
unfolding may_announce
may_announce-Permitted none a e = λ i is. cc
may_announce-Permitted (some info) a e = λ i is.
    let same : info ≡ i = some-injective info i is in
    elim (Option-cases (info.announcement)) [
      | inr (announced, there) ↦ absurd (ground (arith, e, there))
      | inl fresh ↦ (
        ap (λ x. x.announcement) (sym same) ∙ fresh,
        elim (Bool-cases (a.max_supply == 0)) [
          | inl unlimited ↦ inl (ground (arith, unlimited))
          | inr limited ↦
              inr (
                subst (λ x. x.total_supply ≤ a.max_supply) same (ground (arith, e, limited, fresh)))
        ],
      )
    ]

pub is_announced-Permitted :
    {K : Type 0} (info : Option (TokenPubkeyInfo K)) (a : TokenLogoAnnouncement K)
    → is_announced info ≡ true
    → Permitted info (token_logo a)
unfolding is_announced
is_announced-Permitted none a e = cc
is_announced-Permitted (some i) a e = elim (Option-cases (i.announcement)) [
  | inl missing ↦ absurd (ground (arith, e, missing))
  | inr (announced, there) ↦ (i, announced, refl, there)
]

pub allows_freezes-Freezable :
    {K : Type 0} (info : Option (TokenPubkeyInfo K)) → allows_freezes info ≡ true → Freezable info
unfolding allows_freezes
allows_freezes-Freezable none e = λ i announced is there. cc
allows_freezes-Freezable (some info) e = λ i announced is there.
    let same : info ≡ i = some-injective info i is in
    ground (arith, e, ap (λ x. x.announcement) same, there)

pub exceeds_supply-Permitted :
    {K : Type 0} (info : Option (TokenPubkeyInfo K)) (a : IssueAnnouncement K)
    → exceeds_supply info a.amount ≡ false
    → Permitted info (issue a)
unfolding exceeds_supply
exceeds_supply-Permitted none a e = λ i announced is there. cc
exceeds_supply-Permitted (some info) a e = λ i announced is there.
    let same : info ≡ i = some-injective info i is in
    let known : info.announcement ≡ some announced = ap (λ x. x.announcement) same ∙ there in
    elim (Bool-cases (announced.max_supply == 0)) [
      | inl unlimited ↦ inl (ground (arith, unlimited))
      | inr limited ↦ inr (
          subst (λ x. (x.total_supply + a.amount) % 2 ^ 128 ≤ announced.max_supply) same
            (ground (arith, e, known, limited)))
    ]
