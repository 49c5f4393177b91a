-- ===== src/History/Final.antt =====
-- What a sync keeps: records that can no longer change, one record for each key, each under its own
-- key.
use boundless_stock.Prelude.{
  ◌≡◌, refl, false, Option, none, some, List, [], ◌∷◌, arith, map, Has, lookup, insert,
  from_list_onto, IsDict, insert-IsDict, from_list_onto-IsDict, lookup-insert, if◌then◌else◌,
}
use Prim.Native.String.{String}
use boundless_stock.History.Records.{HistoryRecord, Key, key_test_iff, key_eq, live, is_held}
use boundless_stock.History.{
  Book, History, Chains, hold_pass, synced_book, start_book, same_instance, sync_history, sync_evms,
  sync_solanas,
}
use boundless_stock.History.Updates.{Updates, same, set, sync_evms-Updates, sync_solanas-Updates}
use boundless_stock.History.Sorted.{
  IsKeyed, IsDistinct, IsNewestFirst, values-IsDistinct, sort-IsDistinct, sort-IsNewestFirst,
  values-Has, sort-Has,
}

Updates-IsDict : {b c : Book} → Updates b c → IsDict b → IsDict c
Updates-IsDict same h = h
Updates-IsDict (set {c = c} k r u open_ e) h = insert-IsDict k r c (Updates-IsDict u h)

insert-IsKeyed :
    (k : Key) (r : HistoryRecord) (b : Book) → r.key ≡ k → IsKeyed b → IsKeyed (insert k r b)
insert-IsKeyed k r [] e h = (e, tt)
insert-IsKeyed k r ((j, x) ∷ b) e h = ground (arith, key_test_iff j k, insert-IsKeyed k r b e h.1)

Updates-IsKeyed : {b c : Book} → Updates b c → IsKeyed b → IsKeyed c
Updates-IsKeyed same h = h
Updates-IsKeyed (set {c = c} k r u open_ e) h = insert-IsKeyed k r c e (Updates-IsKeyed u h)

-- A record that can no longer change is in the book that comes out.
Updates-final :
    {b c : Book} (k : Key) (r : HistoryRecord)
    → Updates b c
    → lookup k b ≡ some r
    → live r ≡ false
    → lookup k c ≡ some r
Updates-final k r same h f = h
Updates-final k r (set {c = c} j x u open_ e) h f =
    ground (arith, Updates-final k r u h f, lookup-insert j k x c, key_test_iff j k)

hold_pass-final :
    (read : HistoryRecord → Option String) (k : Key) (r : HistoryRecord) (b : Book)
    → lookup k b ≡ some r
    → is_held r ≡ false
    → lookup k (hold_pass read b).0 ≡ some r
unfolding hold_pass
hold_pass-final read k r [] h f = cc
hold_pass-final read k r ((j, x) ∷ b) h f = ground (arith, hold_pass-final read k r b)

hold_pass-none :
    (read : HistoryRecord → Option String) (k : Key) (b : Book)
    → lookup k b ≡ none
    → lookup k (hold_pass read b).0 ≡ none
unfolding hold_pass
hold_pass-none read k [] h = refl
hold_pass-none read k ((j, x) ∷ b) h = ground (arith, hold_pass-none read k b)

hold_pass-IsDict :
    (read : HistoryRecord → Option String) (b : Book) → IsDict b → IsDict (hold_pass read b).0
unfolding hold_pass
hold_pass-IsDict read [] h = tt
hold_pass-IsDict read ((j, x) ∷ b) h =
    ground (arith, hold_pass-IsDict read b h.1, hold_pass-none read j b h.0)

hold_pass-IsKeyed :
    (read : HistoryRecord → Option String) (b : Book) → IsKeyed b → IsKeyed (hold_pass read b).0
unfolding hold_pass
hold_pass-IsKeyed read [] h = tt
hold_pass-IsKeyed read ((j, x) ∷ b) h = ground (arith, hold_pass-IsKeyed read b h.1)

live-is_held : (r : HistoryRecord) → live r ≡ false → is_held r ≡ false
unfolding live
live-is_held r h = ground arith

from_list_onto-IsKeyed :
    (b : Book) (rs : List HistoryRecord)
    → IsKeyed b
    → IsKeyed (from_list_onto b (map (λ r. (r.key, r)) rs))
from_list_onto-IsKeyed b [] h = h
from_list_onto-IsKeyed b (r ∷ rs) h =
    from_list_onto-IsKeyed (insert r.key r b) rs (insert-IsKeyed r.key r b refl h)

module _ (c : Chains) (b : Book) where
  mirrors-Updates :
      Updates b
        (sync_solanas c.format_units c.symbols c.base_dec c.quote_dec c.solana_mirrors
          (sync_evms c.format_units c.symbols c.base_dec c.quote_dec c.evm_mirrors (b, []))).0
  mirrors-Updates =
      sync_solanas-Updates c.format_units c.symbols c.base_dec c.quote_dec c.solana_mirrors b _ (
        sync_evms-Updates c.format_units c.symbols c.base_dec c.quote_dec c.evm_mirrors b (b, [])
          same)

  synced_book-final :
      (k : Key) (r : HistoryRecord)
      → lookup k b ≡ some r
      → live r ≡ false
      → lookup k (synced_book c b).0 ≡ some r
  unfolding synced_book
  synced_book-final k r h f =
      hold_pass-final c.stranded_held k r _ (Updates-final k r mirrors-Updates h f)
        (live-is_held r f)

  synced_book-IsDict : IsDict b → IsDict (synced_book c b).0
  unfolding synced_book
  synced_book-IsDict h = hold_pass-IsDict c.stranded_held _ (Updates-IsDict mirrors-Updates h)

  synced_book-IsKeyed : IsKeyed b → IsKeyed (synced_book c b).0
  unfolding synced_book
  synced_book-IsKeyed h = hold_pass-IsKeyed c.stranded_held _ (Updates-IsKeyed mirrors-Updates h)

module _ (c : Chains) (name instance_id : String) (stored : History) where
  -- The history that a sync writes is ordered newest first and has no two records of one key,
  -- whatever was stored, was read, or could not be read.
  pub sync_history-IsDistinct :
      IsDistinct (sync_history c name instance_id stored).records
      × IsNewestFirst (sync_history c name instance_id stored).records
  unfolding sync_history
  sync_history-IsDistinct =
      let start = start_book stored instance_id in
      let kept = (if same_instance stored.instance_id instance_id then stored.records else []) in
      let keyed = synced_book-IsKeyed c start (from_list_onto-IsKeyed [] kept tt) in
      let dict =
        synced_book-IsDict c start (from_list_onto-IsDict [] (map (λ r. (r.key, r)) kept) tt) in
      (
        sort-IsDistinct c.key_le _ (values-IsDistinct (synced_book c start).0 keyed dict),
        sort-IsNewestFirst c.key_le _,
      )

  -- A stored record of this instance that can no longer change is in the synced history unchanged.
  pub sync_history-keeps_final :
      (k : Key) (r : HistoryRecord)
      → lookup k (start_book stored instance_id) ≡ some r
      → live r ≡ false
      → Has r (sync_history c name instance_id stored).records
  unfolding sync_history
  sync_history-keeps_final k r h f =
      sort-Has c.key_le r _
        (values-Has k r _ (synced_book-final c (start_book stored instance_id) k r h f))
