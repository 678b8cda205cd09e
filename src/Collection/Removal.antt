-- ===== src/Collection/Removal.antt =====
-- `delete_many` against the rows that do not match.
use mdb_embedded.Prelude.{ℕ, ◌+◌, refl, Bool, true, false, none, if◌then◌else◌}
use mdb_embedded.Std.Order.{string_ord, bytes_ord}
use mdb_embedded.Bson.{Document, Externals}
use mdb_embedded.Storage.Memory.{Row, MemCursor}
use mdb_embedded.Storage.Cursor.{remove}
use mdb_embedded.Collection.{
  Collection, Store, Services, Action, ◌>>=◌, ◌>>◌, pure, on_cursor, Flow, go,
}
use mdb_embedded.Collection.Session.{append_oplog_if_enabled, matches}
use mdb_embedded.Collection.Catalog.{remove_from_indexes}
use mdb_embedded.Collection.Crud.{id_or_error, delete_row, delete_many_round}
use mdb_embedded.Collection.Loop.{Step, more, StandsOn, Follows}
use mdb_embedded.Collection.Scans.{decoded, read_document-decoded}
use mdb_embedded.Collection.Related.{
  Related, oks, Related-run, Related-continue, Related-bind, GoesOn, on, Related-Follows, Keeps,
  erase_key, remove-erase_key,
}

module _ (ext : Externals) (svc : Services) (col : Collection) where
  -- What the loop does with a row, without its cursor.
  unfoldable pub delete_document : Row → Document → Bool → Action (Unit {0})
  delete_document r doc internal = id_or_error ext svc col (ext.get doc "_id") >>= (λ id.
      remove_from_indexes ext svc col doc
      >> erase_key col.table_name r.0
      >>= (λ erased. append_oplog_if_enabled svc col "delete" id none internal none >> pure erased))

  delete_row-delete_document :
      (r : Row) (c : MemCursor) (doc : Document) (internal : Bool) (s : Store)
      → StandsOn col.table_name r c
      → Related
          (Keeps c)
          (delete_row ext svc col c doc internal s)
          (delete_document r doc internal s)
  unfolding delete_row delete_document
  delete_row-delete_document r c doc internal s at_row =
      Related-bind (id_or_error ext svc col (ext.get doc "_id"))
        (λ id.
          remove_from_indexes ext svc col doc
          >> on_cursor c remove
          >>= (λ done. append_oplog_if_enabled svc col "delete" id none internal none >> pure done))
        (λ id. remove_from_indexes ext svc col doc >> erase_key col.table_name r.0 >>= (λ erased.
          append_oplog_if_enabled svc col "delete" id none internal none >> pure erased))
        s
        (λ id t.
          Related-continue
            (λ done. append_oplog_if_enabled svc col "delete" id none internal none >> pure done)
            (λ erased.
              append_oplog_if_enabled svc col "delete" id none internal none >> pure erased)
            (Related-bind (remove_from_indexes ext svc col doc) (λ _. on_cursor c remove)
              (λ _. erase_key col.table_name r.0) t
              (λ _ u. remove-erase_key col.table_name r c u at_row))
            (λ a b u p.
              Related-bind (append_oplog_if_enabled svc col "delete" id none internal none)
                (λ _. pure a) (λ _. pure b) u (λ _ v. oks a b v p)))

  -- The round of a row that matches or not.
  unfoldable pub delete_step : Document → Bool → Row → ℕ → Action (Step ℕ)
  unfolding delete_document
  delete_step filter internal r n s =
      (read_row r >>= (λ doc. matches svc ext doc filter >>= (λ hit.
          if hit
          then delete_document r doc internal >>= (λ erased. pure (more (n + 1)))
          else pure (more n))))
        s
    where
      read_row : Row → Action Document
      read_row q t = (decoded ext svc q, t)

  pub delete_many_round-Follows :
      (filter : Document) (internal : Bool) (c : MemCursor) (r : Row) (n : ℕ) (s : Store)
      → StandsOn col.table_name r c
      → Follows c
          (delete_many_round ext svc col filter internal c n s)
          (delete_step filter internal r n s)
  unfolding delete_many_round delete_step
  delete_many_round-Follows filter internal c r n s at_row =
      rw (read_document-decoded ext svc col.table_name r c s at_row) (
        Related-Follows
          (Related-run (decoded ext svc r, s) on_row at_step (λ doc t. by_test doc t)))
    where
      on_hit : Document → Bool → Action (Flow ℕ)
      on_hit doc hit =
          if hit
          then delete_row ext svc col c doc internal >>= (λ done. pure (go done.1 (n + 1)))
          else pure (go c n)

      step_hit : Document → Bool → Action (Step ℕ)
      step_hit doc hit =
          if hit
          then delete_document r doc internal >>= (λ erased. pure (more (n + 1)))
          else pure (more n)

      on_row : Document → Action (Flow ℕ)
      on_row doc = matches svc ext doc filter >>= on_hit doc

      at_step : Document → Action (Step ℕ)
      at_step doc = matches svc ext doc filter >>= step_hit doc

      by_hit :
          (doc : Document) (hit : Bool) (t : Store)
          → Related (GoesOn c) (on_hit doc hit t) (step_hit doc hit t)
      by_hit doc true t =
          Related-continue (λ done. pure (go done.1 (n + 1))) (λ erased. pure (more (n + 1)))
            (delete_row-delete_document r c doc internal t at_row)
            (λ a b u p. oks (go a.1 (n + 1)) (more (n + 1)) u (on a.1 (n + 1) p.1))
      by_hit doc false t =
          oks (go c n) (more n) t
            (on c n (record { table = refl; entries = refl; position = refl }))

      by_test : (doc : Document) (t : Store) → Related (GoesOn c) (on_row doc t) (at_step doc t)
      by_test doc t =
          Related-bind (matches svc ext doc filter) (on_hit doc) (step_hit doc) t (by_hit doc)
