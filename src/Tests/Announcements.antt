-- ===== src/Tests/Announcements.antt =====
-- Announcements at concrete values.
use lrc.Common.{ℕ, ◌≡◌, ◌∷◌, replicate, refl, arith, take, drop}
use lrc.Outcome.{ok, err}
use lrc.Receipt.{token_pubkey_from_bytes}
use lrc.Announcements.Errors.{AnnouncementParseError}
use lrc.Announcements.Ownership.{
  TransferOwnershipAnnouncement, from-to_announcement_data_bytes_refused,
}
use lrc.Announcements.Message.{
  Announcement, to_bytes, from_bytes, announcement_from_bytes, announcement_from_script, to_script,
  kind,
}
use lrc.Announcements.Message.RoundTrip.{
  announcement_from_bytes-to_bytes, announcement_from_script-to_script,
}
use lrc.Announcements.Message.Kinds.{announcement_from_bytes_kind, from_bytes_confuses_kinds}
use lrc.Common.Words.{from_le_bytes}
use lrc.Announcements.Script.{announcement_prefix}
use lrc.Samples.{secp, scripts}
use lrc.Announcements.Issue
use lrc.Announcements.Ownership

abbrev issue_of_5 : Announcement ℕ
issue_of_5 = Announcement.issue (record { token_pubkey = 7; amount = 5 })

announcement_from_bytes_example :
    announcement_from_bytes secp (to_bytes secp issue_of_5) ≡ ok issue_of_5
announcement_from_bytes_example = announcement_from_bytes-to_bytes secp issue_of_5 (omega arith)

announcement_from_script_example :
    announcement_from_script secp scripts (to_script secp scripts issue_of_5) ≡ ok issue_of_5
announcement_from_script_example =
    announcement_from_script-to_script secp scripts issue_of_5 (omega arith)

kind_example :
    (take 5 (to_bytes secp issue_of_5) ≡ announcement_prefix)
    × (take 2 (drop 5 (to_bytes secp issue_of_5)) ≡ kind issue_of_5)
kind_example =
    announcement_from_bytes_kind secp (to_bytes secp issue_of_5) issue_of_5
      announcement_from_bytes_example

abbrev to_p2wpkh : TransferOwnershipAnnouncement ℕ
to_p2wpkh = record { token_pubkey = 7; new_owner = 0 ∷ 20 ∷ replicate 20 1 }

abbrev to_sixteen : TransferOwnershipAnnouncement ℕ
to_sixteen = record { token_pubkey = 7; new_owner = replicate 16 1 }

refused_example :
    (e : AnnouncementParseError) × (Ownership.from_announcement_data_bytes secp
        (Ownership.to_announcement_data_bytes secp to_p2wpkh)
      ≡ err e)
refused_example = from-to_announcement_data_bytes_refused secp to_p2wpkh (λ h. omega arith)

-- A script that is the bytes of the key.
abbrev to_key : TransferOwnershipAnnouncement ℕ
to_key = record { token_pubkey = 7; new_owner = 7 ∷ replicate 32 0 }

to_key_read :
    Ownership.from_announcement_data_bytes secp (Ownership.to_announcement_data_bytes secp to_key)
    ≡ ok to_key
unfolding Ownership.from_announcement_data_bytes Ownership.to_announcement_data_bytes
    lrc.Receipt.token_pubkey_to_bytes token_pubkey_from_bytes
to_key_read = refl

confused_example :
    from_bytes
      (Issue.from_announcement_data_bytes secp)
      (to_bytes secp (Announcement.transfer_ownership to_sixteen))
    ≡ ok (record { token_pubkey = 7; amount = from_le_bytes (replicate 16 1) })
confused_example = from_bytes_confuses_kinds secp to_sixteen refl
