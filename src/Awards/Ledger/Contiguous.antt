-- ===== src/Awards/Ledger/Contiguous.antt =====
-- spikes/internal-invocation-awards/src/receipt-ledger.mjs: the receipts of a scope are numbered from 1
-- without a gap and without a repetition.
use skill_asset_protocol.Base.{
  ℕ, ◌+◌, ◌≤◌, ◌<◌, ◌≡◌, ◌⊎◌, lookup-has_key, has_key-distinct, text_eq_comm, ltb-false, ltb→lt,
  sym, ap, ◌∙◌, JsString, true, false, ok, ok-injective, inl, inr, arith, Bool-cases, ==→eq, not,
  lookup, has_key, map_with, lookup-map_with_same, lookup-map_with_other, bind-ok, fail_if, some,
  ltb, text_eq, text_eq→eq, includes, values,
}
use skill_asset_protocol.Kernel.Platform.{Platform}
use skill_asset_protocol.Kernel.Patterns.{hash_pattern}
use skill_asset_protocol.Awards.Errors.{
  Calendar, hash_format, receipt_sequence, receipt_hash_mismatch, receipt_committed,
}
use skill_asset_protocol.Awards.Schema.{require_string}
use skill_asset_protocol.Awards.Keys.{Crypto}
use skill_asset_protocol.Awards.Receipts.{SignedReceipt}
use skill_asset_protocol.Awards.Receipts.Signed.{receipt_hash}
use skill_asset_protocol.Awards.Ledger.{
  ReceiptLedger, create_receipt_ledger_state, next_sequence, or_one, index_key, require_next,
  append_signed_receipt,
}

abbrev scope_of : SignedReceipt → JsString
scope_of s = s.payload.receipt_sequence_scope

abbrev sequence_of : SignedReceipt → ℕ
sequence_of s = s.payload.sequence

-- The sequences of a scope that are committed are those from 1 to the next one, each once.
pub record IsContiguous (ledger : ReceiptLedger) : Type 0 where
  pub counted :
      (id : JsString) (s : SignedReceipt)
      → lookup id ledger.receipts ≡ some s
      → (1 ≤ s.payload.sequence)
        × (s.payload.sequence < next_sequence ledger s.payload.receipt_sequence_scope)
  pub single :
      (id other : JsString) (s t : SignedReceipt)
      → lookup id ledger.receipts ≡ some s
      → lookup other ledger.receipts ≡ some t
      → s.payload.receipt_sequence_scope ≡ t.payload.receipt_sequence_scope
      → s.payload.sequence ≡ t.payload.sequence
      → text_eq id other ≡ true
  pub complete :
      (scope : JsString) (n : ℕ)
      → 1 ≤ n
      → n < next_sequence ledger scope
      → (id : JsString) × (s : SignedReceipt) × (lookup id ledger.receipts ≡ some s)
        × (s.payload.receipt_sequence_scope ≡ scope)
        × (s.payload.sequence ≡ n)

-- What an append has checked and made.
record IsAppended (ledger next : ReceiptLedger) (signed : SignedReceipt) : Type 0 where
  new : has_key signed.payload.receipt_id ledger.receipts ≡ false
  positive : 1 ≤ sequence_of signed
  expected : sequence_of signed ≡ next_sequence ledger (scope_of signed)
  receipts_part : next.receipts ≡ map_with ledger.receipts signed.payload.receipt_id signed
  sequences_part :
      next.next_receipt_sequences
      ≡ map_with ledger.next_receipt_sequences
          (scope_of signed)
          (next_sequence ledger (scope_of signed) + 1)

append_signed_receipt-IsAppended :
    (p : Platform) (c : Crypto) (calendar : Calendar) (ledger next : ReceiptLedger)
    (signed : SignedReceipt) (hash : JsString)
    → append_signed_receipt p c calendar ledger signed hash ≡ ok next
    → IsAppended ledger next signed
unfolding append_signed_receipt require_next
append_signed_receipt-IsAppended p c calendar ledger next signed hash h =
    let id = bind-ok (require_string signed.payload.receipt_id) h in
    let scope = bind-ok (require_string signed.payload.receipt_sequence_scope) id.2 in
    let positive = bind-ok (fail_if (ltb signed.payload.sequence 1) receipt_sequence) scope.2 in
    let at_least = positive.1 in
    let format = bind-ok (fail_if (not (hash_pattern hash)) hash_format) positive.2 in
    let computed = bind-ok (receipt_hash p c calendar signed) format.2 in
    let same = bind-ok (fail_if (not (text_eq hash computed.0)) receipt_hash_mismatch) computed.2 in
    let checked = bind-ok (require_next p ledger signed hash) same.2 in
    let unused =
      bind-ok (fail_if (has_key signed.payload.receipt_id ledger.receipts) receipt_committed)
        checked.1 in
    let hashes =
      bind-ok (fail_if (includes hash (values ledger.receipt_hashes)) receipt_committed) unused.2 in
    let index =
      bind-ok
        (fail_if
          (has_key (index_key p (scope_of signed) (sequence_of signed))
            ledger.receipt_sequence_index)
          receipt_committed)
        hashes.2 in
    let fresh = unused.1 in
    let sequence = index.2 in
    let made = sym (ok-injective checked.2) in
    record {
      new = ground arith;
      positive = ltb-false (sequence_of signed) 1 (ground arith);
      expected = ==→eq (sequence_of signed) (next_sequence ledger (scope_of signed)) (ground arith);
      receipts_part = ap (λ (l : ReceiptLedger). l.receipts) made;
      sequences_part = ap (λ (l : ReceiptLedger). l.next_receipt_sequences) made;
    }

-- The next sequence of the scope, and of another one, after an append.
module _ (ledger next : ReceiptLedger) (signed : SignedReceipt)
    (a : IsAppended ledger next signed) where
  next_sequence_same : next_sequence next (scope_of signed) ≡ sequence_of signed + 1
  unfolding next_sequence
  next_sequence_same =
      let e = a.expected in
      ap (λ m. or_one (lookup (scope_of signed) m)) a.sequences_part
      ∙ ap or_one (
          lookup-map_with_same ledger.next_receipt_sequences (scope_of signed)
            (next_sequence ledger (scope_of signed) + 1))
      ∙ ap (λ n. n + 1) (sym e)

  next_sequence_other :
      (scope : JsString)
      → text_eq (scope_of signed) scope ≡ false
      → next_sequence next scope ≡ next_sequence ledger scope
  unfolding next_sequence
  next_sequence_other scope distinct =
      ap (λ m. or_one (lookup scope m)) a.sequences_part
      ∙ ap or_one (
          lookup-map_with_other ledger.next_receipt_sequences (scope_of signed) scope
            (next_sequence ledger (scope_of signed) + 1) distinct)

  -- A receipt of the new ledger is the appended one, or one of the old ledger.
  next_sequence_grows : (scope : JsString) → next_sequence ledger scope ≤ next_sequence next scope
  next_sequence_grows scope = elim (Bool-cases (text_eq (scope_of signed) scope)) [
    | inl same ↦
        let e = ap (next_sequence ledger) (text_eq→eq (scope_of signed) scope same) in
        let f = ap (next_sequence next) (text_eq→eq (scope_of signed) scope same) in
        let g = next_sequence_same in let expected = a.expected in omega (arith, e, f, g, expected)
    | inr distinct ↦ let e = next_sequence_other scope distinct in omega (arith, e)
  ]

  receipt_cases :
      (id : JsString) (s : SignedReceipt)
      → lookup id next.receipts ≡ some s
      → ((text_eq signed.payload.receipt_id id ≡ true) × (s ≡ signed))
        ⊎ ((text_eq signed.payload.receipt_id id ≡ false) × (lookup id ledger.receipts ≡ some s))
  receipt_cases id s h = elim (Bool-cases (text_eq signed.payload.receipt_id id)) [
    | inl same ↦
        let e = lookup-map_with_same ledger.receipts signed.payload.receipt_id signed in
        let f = ap (λ k. lookup k next.receipts) (text_eq→eq signed.payload.receipt_id id same) in
        let g = ap (lookup signed.payload.receipt_id) a.receipts_part in
        inl (same, same_value (sym h ∙ sym f ∙ g ∙ e))
    | inr distinct ↦
        let e =
          lookup-map_with_other ledger.receipts signed.payload.receipt_id id signed distinct in
        let g = ap (lookup id) a.receipts_part in inr (distinct, sym e ∙ sym g ∙ h)
  ]
    where
      same_value : {s t : SignedReceipt} → some s ≡ some t → s ≡ t
      same_value e = cc

  -- A receipt of the old ledger is one of the new ledger.
  receipt_kept :
      (id : JsString) {s : SignedReceipt}
      → lookup id ledger.receipts ≡ some s
      → lookup id next.receipts ≡ some s
  receipt_kept id h =
      let distinct =
        has_key-distinct ledger.receipts id signed.payload.receipt_id
          (lookup-has_key ledger.receipts id h) a.new in
      ap (lookup id) a.receipts_part
      ∙ lookup-map_with_other ledger.receipts signed.payload.receipt_id id signed
          (text_eq_comm signed.payload.receipt_id id ∙ distinct)
      ∙ h

  appended-counted :
      IsContiguous ledger
      → (id : JsString) (s : SignedReceipt) → lookup id next.receipts ≡ some s
      → (1 ≤ sequence_of s) × (sequence_of s < next_sequence next (scope_of s))
  appended-counted k id s h = elim (receipt_cases id s h) [
    | inl (same, e) ↦
        let f = ap sequence_of e in
        let g = ap (λ t. next_sequence next (scope_of t)) e in
        let grown = next_sequence_same in
        let positive = a.positive in (omega (arith, f), omega (arith, f, g, grown))
    | inr (distinct, old) ↦
        let before = k.counted id s old in
        let positive = before.0 in
        let less = before.1 in
        let grows = next_sequence_grows (scope_of s) in (positive, omega (arith, less, grows))
  ]

  -- The appended receipt has a sequence that no receipt of the old ledger has.
  appended-fresh :
      IsContiguous ledger
      → (id : JsString) (s : SignedReceipt) → lookup id ledger.receipts ≡ some s
      → scope_of s ≡ scope_of signed
      → sequence_of s ≡ sequence_of signed
      → ⊥
  appended-fresh k id s old scopes sequences =
      let less = (k.counted id s old).1 in
      let e = ap (next_sequence ledger) scopes in
      let expected = a.expected in absurd (omega (arith, less, e, expected, sequences))

  appended-single :
      IsContiguous ledger
      → (id other : JsString) (s t : SignedReceipt) → lookup id next.receipts ≡ some s
      → lookup other next.receipts ≡ some t
      → scope_of s ≡ scope_of t
      → sequence_of s ≡ sequence_of t
      → text_eq id other ≡ true
  appended-single k id other s t hs ht scopes sequences = elim (receipt_cases id s hs) [
    | inl (same, e) ↦ elim (receipt_cases other t ht) [
      | inl (also, f) ↦
          ap (λ x. text_eq x other) (sym (text_eq→eq signed.payload.receipt_id id same)) ∙ also
      | inr (distinct, old) ↦ absurd (
          appended-fresh k other t old (sym scopes ∙ ap scope_of e)
            (sym sequences ∙ ap sequence_of e))
    ]
    | inr (distinct, old) ↦ elim (receipt_cases other t ht) [
      | inl (also, f) ↦
          absurd (appended-fresh k id s old (scopes ∙ ap scope_of f) (sequences ∙ ap sequence_of f))
      | inr (apart, old_too) ↦ k.single id other s t old old_too scopes sequences
    ]
  ]

  appended_complete :
      IsContiguous ledger
      → (scope : JsString) (n : ℕ) → 1 ≤ n
      → n < next_sequence next scope
      → (id : JsString) × (s : SignedReceipt) × (lookup id next.receipts ≡ some s)
        × (scope_of s ≡ scope)
        × (sequence_of s ≡ n)
  appended_complete k scope n positive below =
      elim (Bool-cases (ltb n (next_sequence ledger scope))) [
        | inl before ↦
            let old = k.complete scope n positive (ltb→lt n (next_sequence ledger scope) before) in
            (old.0, old.1, receipt_kept old.0 old.2, old.3, old.4)
        | inr last ↦ elim (Bool-cases (text_eq (scope_of signed) scope)) [
          | inl same ↦
              let e = text_eq→eq (scope_of signed) scope same in
              let f = ap (next_sequence next) e in
              let g = ap (next_sequence ledger) e in
              let grown = next_sequence_same in
              let expected = a.expected in
              let most = ltb-false n (next_sequence ledger scope) last in
              (
                signed.payload.receipt_id,
                signed,
                ap (lookup signed.payload.receipt_id) a.receipts_part
                    ∙ lookup-map_with_same ledger.receipts signed.payload.receipt_id signed,
                e,
                omega (arith, f, g, grown, expected, most, below),
              )
          | inr distinct ↦
              let e = next_sequence_other scope distinct in
              let most = ltb-false n (next_sequence ledger scope) last in
              absurd (omega (arith, e, most, below))
        ]
      ]

-- The empty ledger is contiguous.
pub create_receipt_ledger_state-IsContiguous : IsContiguous create_receipt_ledger_state
unfolding create_receipt_ledger_state lookup next_sequence
create_receipt_ledger_state-IsContiguous = record {
  counted = λ id s h. absurd (ground arith);
  single = λ id other s t h k scopes sequences. absurd (ground arith);
  complete = λ scope n positive below. absurd (omega arith);
}

-- A ledger whose committed sequences of every scope are those from 1 to the next one, each of one receipt,
-- is one after an append too.
pub append_signed_receipt-IsContiguous :
    (p : Platform) (c : Crypto) (calendar : Calendar) (ledger next : ReceiptLedger)
    (signed : SignedReceipt) (hash : JsString)
    → IsContiguous ledger
    → append_signed_receipt p c calendar ledger signed hash ≡ ok next
    → IsContiguous next
append_signed_receipt-IsContiguous p c calendar ledger next signed hash k h =
    let a = append_signed_receipt-IsAppended p c calendar ledger next signed hash h in
    record {
      counted = appended-counted ledger next signed a k;
      single = appended-single ledger next signed a k;
      complete = appended_complete ledger next signed a k;
    }
