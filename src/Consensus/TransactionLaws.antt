-- ===== src/Consensus/TransactionLaws.antt =====
-- Transactions are read back from their wire forms, alone and, but for announcements, in batches.
use lrc.Common.{
  subst, suc, ◌%◌, ℕ, List, [], append_assoc, arith, bytes_eq, inl, inr, length, length-append, ◌<◌,
  ◌^◌, ◌≡◌, All, ◌++◌, ◌+◌, ◌∷◌, ◌≢◌,
}
use lrc.Codec.{Codec, RoundTrips, io}
use lrc.Codec.Bitcoin.{BitcoinCodecs}
use lrc.Keys.{Secp256k1}
use lrc.Announcements.Issue.{IssueAnnouncement}
use lrc.Announcements.Message.{Announcement, to_bytes, from_bytes, announcement_from_bytes, kind}
use lrc.Announcements.Message.RoundTrip.{IsReadable, announcement_from_bytes-to_bytes}
use lrc.Consensus.Wrappers.{
  btree_map_wrapper, vec_wrapper, decode_each, decode_vec, encode_each, encode_vec,
}
use lrc.Consensus.WrapperLaws.{
  OptionAll, IsEncodable, option_wrapper_lem, btree_map_wrapper_lem, vec_wrapper_lem,
}
use lrc.Consensus.Transactions.{
  encode_announcement, decode_announcement, encode_issue, decode_issue, announcement_codec,
  issue_codec, encode_tx_type, decode_issue_type, decode_transfer_type, decode_tx_type,
  tx_type_codec, decode_transaction, encode_transaction, transaction_codec,
}
use lrc.Transaction.{Lrc20TxType, transfer, announcement, spark_exit, Lrc20Transaction}
use lrc.Outcome.{Result-cases, ok, >>=-eq-ok}
use lrc.Codec.Bytes.{read_exact-append}
use lrc.Announcements.Issue
use lrc.Announcements.Message

module _ (secp : Secp256k1) where
  open secp use {PublicKey}

  length-issue :
      (a : IssueAnnouncement PublicKey) → length (to_bytes secp (Announcement.issue a)) ≡ 56
  unfolding to_bytes kind Message.to_announcement_data_bytes
  length-issue a = omega (arith, Issue.length-to_announcement_data_bytes secp a)

  issue_from_bytes :
      (a : IssueAnnouncement PublicKey)
      → a.amount < 2 ^ 128
      → from_bytes (Issue.from_announcement_data_bytes secp) (to_bytes secp (Announcement.issue a))
        ≡ ok a
  unfolding from_bytes to_bytes kind Message.to_announcement_data_bytes bytes_eq
  issue_from_bytes a h = rw (
    Issue.length-to_announcement_data_bytes secp a,
    Issue.from-to_announcement_data_bytes secp a h,
  )

  pub issue_codec_lem : RoundTrips (issue_codec secp) (λ a. a.amount < 2 ^ 128)
  unfolding encode_issue decode_issue
  issue_codec_lem a h rest = rw (
    read_exact-append io 56 (to_bytes secp (Announcement.issue a)) rest (length-issue a),
    issue_from_bytes a h,
  )

  announcement_codec_whole :
      (a : Announcement PublicKey)
      → IsReadable secp a
      → (announcement_codec secp).decode ((announcement_codec secp).encode a) ≡ ok (a, [])
  unfolding encode_announcement decode_announcement
  announcement_codec_whole a v = rw (announcement_from_bytes-to_bytes secp a v)

  pub announcement_codec_end :
      (bs rest : List ℕ) (a : Announcement PublicKey)
      → (announcement_codec secp).decode bs ≡ ok (a, rest)
      → rest ≡ []
  unfolding decode_announcement
  announcement_codec_end bs rest a e = elim (Result-cases (announcement_from_bytes secp bs)) [
    | inl (b, e') ↦ ground (arith, e')
    | inr (x, e') ↦ ground (arith, e')
  ]

module _ (btc : BitcoinCodecs) (secp : Secp256k1) {P : Type 0} (proof : Codec P) (Good : P → Type 0)
    (law : RoundTrips proof Good) where
  open btc use {u8, u8_lem}
  open secp use {PublicKey}

  abbrev pub IsBounded : Lrc20TxType PublicKey P → Type 0
  IsBounded (Lrc20TxType.issue proofs a) =
      OptionAll (IsEncodable btc proof Good law) proofs × (a.amount < 2 ^ 128)
  IsBounded (transfer inputs outputs) =
      IsEncodable btc proof Good law inputs × IsEncodable btc proof Good law outputs
  IsBounded (announcement a) = ⊥
  IsBounded (spark_exit outputs) = IsEncodable btc proof Good law outputs

  maps : RoundTrips (btree_map_wrapper btc proof) (IsEncodable btc proof Good law)
  maps = btree_map_wrapper_lem btc proof Good law

  -- An issue, a transfer and a spark exit are read back, and what follows is left.
  pub tx_type_codec_lem : RoundTrips (tx_type_codec btc secp proof) IsBounded
  unfolding encode_tx_type decode_tx_type decode_issue_type decode_transfer_type
  tx_type_codec_lem (Lrc20TxType.issue proofs a) v rest = simp (
    append_assoc,
    u8_lem 0 (omega arith),
    issue_codec_lem secp a v.1,
    option_wrapper_lem btc (btree_map_wrapper btc proof) (IsEncodable btc proof Good law) maps
        proofs v.0,
  )
  tx_type_codec_lem (transfer inputs outputs) v rest =
      simp (append_assoc, u8_lem 1 (omega arith), maps inputs v.0, maps outputs v.1)
  tx_type_codec_lem (announcement a) v rest = absurd v
  tx_type_codec_lem (spark_exit outputs) v rest =
      simp (append_assoc, u8_lem 4 (omega arith), maps outputs v)

  -- An announcement is read back where nothing follows it.
  pub tx_type_codec_announcement :
      (a : Announcement PublicKey)
      → IsReadable secp a
      → (tx_type_codec btc secp proof).decode
          ((tx_type_codec btc secp proof).encode (announcement a))
        ≡ ok (announcement a, [])
  unfolding encode_tx_type decode_tx_type
  tx_type_codec_announcement a v = simp (u8_lem 2 (omega arith), announcement_codec_whole secp a v)

module _ (btc : BitcoinCodecs) (secp : Secp256k1) {Tx P : Type 0} (tx : Codec Tx) (proof : Codec P)
    (GoodTx : Tx → Type 0) (tx_law : RoundTrips tx GoodTx) (Good : P → Type 0)
    (law : RoundTrips proof Good) where
  open btc use {u8, u8_lem, u32, u32_lem}
  open secp use {PublicKey}

  abbrev pub IsTransaction : Lrc20Transaction Tx PublicKey P → Type 0
  IsTransaction t = GoodTx t.bitcoin_tx × IsBounded btc secp proof Good law t.tx_type

  -- A transaction that is no announcement is read back, and what follows is left.
  pub transaction_codec_lem : RoundTrips (transaction_codec btc secp tx proof) IsTransaction
  unfolding encode_transaction decode_transaction
  transaction_codec_lem t v rest = simp (
    append_assoc,
    tx_law t.bitcoin_tx v.0,
    tx_type_codec_lem btc secp proof Good law t.tx_type v.1,
  )

  -- `Lrc20TxsWrapper`: a batch of such transactions is read back.
  pub transactions_codec_lem :
      RoundTrips
        (vec_wrapper btc (transaction_codec btc secp tx proof))
        (λ ts. All IsTransaction ts × (length ts < 2 ^ 32))
  transactions_codec_lem =
      vec_wrapper_lem btc (transaction_codec btc secp tx proof) IsTransaction transaction_codec_lem

  announcement_leaves_nothing :
      (b : Tx) (a : Announcement PublicKey) (u : Lrc20Transaction Tx PublicKey P) (bs rest : List ℕ)
      → GoodTx b
      → decode_transaction btc secp tx proof (
          encode_transaction btc secp tx proof (record { bitcoin_tx = b; tx_type = announcement a })
          ++ bs)
        ≡ ok (u, rest)
      → rest ≡ []
  unfolding decode_transaction encode_transaction decode_tx_type encode_tx_type decode_announcement
      encode_announcement
  announcement_leaves_nothing b a u bs rest good e =
      elim (Result-cases (announcement_from_bytes secp (to_bytes secp a ++ bs))) [
        | inl (a', read) ↦
            ground (arith, simp (append_assoc, tx_law b good, u8_lem 2 (omega arith), read) at e)
        | inr (x, fails) ↦
            cc (simp (append_assoc, tx_law b good, u8_lem 2 (omega arith), fails) at e)
      ]

  each_behind_announcement :
      ((x : Tx) (rest : List ℕ) → tx.decode [] ≢ ok (x, rest))
      → (b : Tx) (a : Announcement PublicKey) (n : ℕ) (bs : List ℕ)
        (us : List (Lrc20Transaction Tx PublicKey P)) (rest : List ℕ)
      → GoodTx b
      → decode_each btc (transaction_codec btc secp tx proof) (suc (suc n)) (
          encode_transaction btc secp tx proof (record { bitcoin_tx = b; tx_type = announcement a })
          ++ bs)
        ≢ ok (us, rest)
  unfolding decode_each decode_transaction
  each_behind_announcement needs_bytes b a n bs us rest good e =
      let first =
        >>=-eq-ok
          (decode_transaction btc secp tx proof (
            encode_transaction btc secp tx proof
              (record { bitcoin_tx = b; tx_type = announcement a })
            ++ bs))
          _ e in
      let second =
        >>=-eq-ok (decode_each btc (transaction_codec btc secp tx proof) (suc n) first.0.1) _
          first.2 in
      let third = >>=-eq-ok (decode_transaction btc secp tx proof first.0.1) _ second.1 in
      let bitcoin = >>=-eq-ok (tx.decode first.0.1) _ third.1 in
      let nothing = announcement_leaves_nothing b a first.0.0 bs first.0.1 good first.1 in
      needs_bytes bitcoin.0.0 bitcoin.0.1
        (subst (λ r. tx.decode r ≡ ok bitcoin.0) nothing bitcoin.1)

  abbrev pub announcing : Tx → Announcement PublicKey → Lrc20Transaction Tx PublicKey P
  announcing b a = record { bitcoin_tx = b; tx_type = announcement a }

  -- What stands before the announcement is read.
  each_around_announcement :
      ((x : Tx) (rest : List ℕ) → tx.decode [] ≢ ok (x, rest))
      → (before : List (Lrc20Transaction Tx PublicKey P)) (b : Tx) (a : Announcement PublicKey)
        (t : Lrc20Transaction Tx PublicKey P) (ts us : List (Lrc20Transaction Tx PublicKey P))
        (rest : List ℕ)
      → All IsTransaction before
      → GoodTx b
      → decode_each btc
          (transaction_codec btc secp tx proof)
          (length (before ++ (announcing b a ∷ t ∷ ts)))
          (encode_each btc
            (transaction_codec btc secp tx proof)
            (before ++ (announcing b a ∷ t ∷ ts)))
        ≢ ok (us, rest)
  unfolding decode_each encode_each
  each_around_announcement needs_bytes [] b a t ts us rest good_before good e =
      each_behind_announcement needs_bytes b a (length ts)
        (encode_each btc (transaction_codec btc secp tx proof) (t ∷ ts)) us rest good e
  each_around_announcement needs_bytes (u ∷ before) b a t ts us rest (good_u, good_before) good e =
      let batch = before ++ (announcing b a ∷ t ∷ ts) in
      let tail = encode_each btc (transaction_codec btc secp tx proof) batch in
      let first =
        >>=-eq-ok
          (decode_transaction btc secp tx proof (encode_transaction btc secp tx proof u ++ tail)) _
          e in
      let read : first.0.1 ≡ tail = ground (arith, first.1, transaction_codec_lem u good_u tail) in
      let second =
        >>=-eq-ok (decode_each btc (transaction_codec btc secp tx proof) (length batch) first.0.1) _
          first.2 in
      each_around_announcement needs_bytes before b a t ts second.0.0 second.0.1 good_before good (
        subst
          (λ r.
            decode_each btc (transaction_codec btc secp tx proof) (length batch) r ≡ ok second.0)
          read second.1)

  -- Where the reader of Bitcoin transactions refuses the empty input, a batch of fewer than 2^32
  -- transactions with an announcement before another transaction is not read, to any result: the
  -- announcement's reader takes the rest of the input. What stands before the announcement are
  -- transactions that are read back, and so is the announcement's Bitcoin transaction.
  pub batch_behind_announcement :
      ((x : Tx) (rest : List ℕ) → tx.decode [] ≢ ok (x, rest))
      → (before : List (Lrc20Transaction Tx PublicKey P)) (b : Tx) (a : Announcement PublicKey)
        (t : Lrc20Transaction Tx PublicKey P) (ts us : List (Lrc20Transaction Tx PublicKey P))
        (rest : List ℕ)
      → All IsTransaction before
      → GoodTx b
      → length before + (length ts + 2) < 2 ^ 32
      → (vec_wrapper btc (transaction_codec btc secp tx proof)).decode (
          (vec_wrapper btc (transaction_codec btc secp tx proof)).encode
            (before ++ (announcing b a ∷ t ∷ ts)))
        ≢ ok (us, rest)
  unfolding encode_vec decode_vec encode_each
  batch_behind_announcement needs_bytes before b a t ts us rest good_before good small e =
      let batch = before ++ (announcing b a ∷ t ∷ ts) in
      let count : length batch ≡ length before + (length ts + 2) =
        omega (arith, length-append before (announcing b a ∷ t ∷ ts)) in
      let size : length batch % 2 ^ 32 ≡ length batch = omega arith in
      each_around_announcement needs_bytes before b a t ts us rest good_before good
        (simp (size, u32_lem (length batch) (omega arith)) at e)
