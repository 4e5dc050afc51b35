-- ===== src/Bookmarks/Offline/Settles.antt =====
-- After the merge of offline changes, a comparison finds no change.
use vaultmarks.Shared.{ℕ, String, true, false, some, List, [], ◌==◌, ◌≡◌, ◌∙◌, arith, All}
use vaultmarks.Shared.Dict.{Dict, get, has, keys, All-entries}
use vaultmarks.Bookmarks.Node.{Item}
use vaultmarks.Bookmarks.Mapping.Bijection.{IsBijective}
use vaultmarks.Bookmarks.Roots.{Roots}
use vaultmarks.Crdt.{Loro}
use vaultmarks.Bookmarks.Offline.{
  Bridge, Changes, index_items, add_all_new, remove_all_gone, update_changed,
  merge_local_changes_into_doc, compute_offline_changes,
}
use vaultmarks.Bookmarks.Offline.Counts.{
  Agrees, agreeing_unmodified, count_added-zero, count_removed-zero,
}
use vaultmarks.Bookmarks.Offline.Phases.{
  IsSound, AreDifferent, add_all_new-IsSound, add_all_new-known,
}
use vaultmarks.Bookmarks.Offline.Removal.{
  contains-keys, IsPurge, remove_all_gone-IsPurge, remove_all_gone-IsClean, all_agree,
}

module _ (L : Loro) (uuid : ℕ → String) (r : Roots) (different : AreDifferent uuid)
    (visit_order : List Item) (named : All (λ i. (i.id == "") ≡ false) visit_order)
    (b : Bridge L.Doc) (sound : IsSound L uuid b) where
  abbrev current : Dict Item
  current = index_items [] visit_order

  abbrev with_new : Bridge L.Doc
  with_new = add_all_new L uuid r b visit_order

  abbrev doc_ids : List String
  doc_ids = keys (L.get_all_bookmarks with_new.doc)

  abbrev without_gone : Bridge L.Doc
  without_gone = remove_all_gone L uuid r current with_new doc_ids

  with_new-IsSound : IsSound L uuid with_new
  with_new-IsSound = add_all_new-IsSound L uuid r different b visit_order named sound

  purge : IsPurge L uuid r current with_new without_gone
  purge = remove_all_gone-IsPurge L uuid r current with_new doc_ids

  nodes_mapped :
      (c : String) → has current c ≡ true → has without_gone.mapping.chrome_to_loro c ≡ true
  nodes_mapped c h =
      rw (purge.kept c h)
        (add_all_new-known L uuid r different b visit_order [] c (λ k. absurd (nothing c k)) h)
    where
      nothing : (c : String) → has {V = Item} [] c ≡ true → ⊥
      nothing c k = unfold get in ground arith

  mapped_there :
      (l c : String) → get without_gone.mapping.loro_to_chrome l ≡ some c → has current c ≡ true
  mapped_there l c h =
      let before = purge.part l c h in
      remove_all_gone-IsClean L uuid r current with_new doc_ids l
        (contains-keys (L.get_all_bookmarks with_new.doc) l ∙ with_new-IsSound.present l c before) c
        h (with_new-IsSound.nonempty l c before)

  abbrev final_doc : L.Doc
  final_doc =
      update_changed L uuid r without_gone.mapping current without_gone.doc
        (L.get_all_bookmarks without_gone.doc)

  abbrev counted : Changes
  counted =
      compute_offline_changes r without_gone.mapping visit_order (L.get_all_bookmarks final_doc)

  none_added : counted.added ≡ 0
  unfolding compute_offline_changes
  none_added = count_added-zero without_gone.mapping current nodes_mapped

  none_removed : counted.removed ≡ 0
  unfolding compute_offline_changes
  none_removed =
      count_removed-zero without_gone.mapping current without_gone.mapping.loro_to_chrome (λ l h. h)
        mapped_there

  none_modified : counted.modified ≡ 0
  none_modified =
      agreeing_unmodified r without_gone.mapping visit_order (L.get_all_bookmarks final_doc) (
        All-entries (Agrees r without_gone.mapping current) (L.get_all_bookmarks final_doc)
          (L.all-distinct final_doc)
          (all_agree L uuid r current without_gone.mapping without_gone.doc))

  -- For any document library with the behaviour of a map, ids that are drawn at random and new, a
  -- bridge whose mapping is a bijection into the document, and visited nodes with non-empty ids:
  -- after `mergeLocalChangesIntoDoc`, `computeOfflineChanges` over the same nodes counts nothing
  -- added, nothing removed and nothing modified.
  pub merge_settles :
      compute_offline_changes r
        (merge_local_changes_into_doc L uuid r visit_order b).mapping
        visit_order
        (L.get_all_bookmarks (merge_local_changes_into_doc L uuid r visit_order b).doc)
      ≡ record { added = 0; removed = 0; modified = 0 }
  unfolding merge_local_changes_into_doc
  merge_settles =
      λ i. record { added = none_added i; removed = none_removed i; modified = none_modified i }

  -- Under the same conditions the merge leaves a mapping that is a bijection.
  pub merge-IsBijective : IsBijective (merge_local_changes_into_doc L uuid r visit_order b).mapping
  unfolding merge_local_changes_into_doc
  merge-IsBijective = purge.bijective with_new-IsSound.bijective
