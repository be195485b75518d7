-- ===== src/Node/Replication.antt =====
-- putReplica and getReplica of replication.go over the stores of the nodes, with the handlers of
-- handler.go that answer them. The URL is put together without escaping the key, and what
-- net/url and net/http make of it is a parameter, `Routing`, as is encoding/json.
pub mod Refines
mod Witnesses
use minidist.Base.{
  ℕ, Bool, true, false, ◌||◌, not, Option, none, some, List, [], ◌∷◌, ltb, ◌==◌, length,
  if◌then◌else◌,
}
use minidist.Base.Text.{Text, text_eq}
use minidist.Store.Version.{Value}
use minidist.Store.Snapshot.{Codec, SnapshotData}
use minidist.Store.Memory.{Memory, Entry, Env, get, set}
use minidist.Store.Stored.{failed}
use minidist.Node.Http.{
  method_get, method_put, status_ok, status_no_content, status_bad_request, status_not_found,
  status_method_not_allowed, status_internal_server_error,
}
use minidist.Node.Quorum.{Delivery, acknowledged, unacknowledged, lost}

abbrev pub Memories : Type 0
Memories = Text → Memory

abbrev pub set_memory : Text → Memory → Memories → Memories
set_memory a m mems = λ b. if text_eq a b then m else mems b

-- What net/url and net/http make of a PUT whose URL ends in a key: `handleInternalKV` reads a key from
-- the path, or it does not get the request (a byte that a URL may not have, a path that is redirected),
-- and then the client takes the outcome for a success or not.
pub data PutRoute : Type 0 where
  read_as : Text → PutRoute
  not_handled : Bool → PutRoute

-- For a GET, redirects followed: the key that is read, or none for an error.
pub record Routing : Type 0 where
  pub put_route : Text → PutRoute
  pub get_route : Text → Option Text

unfoldable pub answered : Delivery → Bool → Bool
answered acknowledged ok = ok
answered unacknowledged ok = false
answered lost ok = false

module _ (entries : Codec Entry) (snapshots : Codec SnapshotData) (values : Codec Value) where
  -- `handleInternalPut`; the body is decoded by `values`.
  unfoldable pub handle_internal_put : Env → Text → List ℕ → Memory → ℕ × Memory
  unfolding set
  handle_internal_put env key body m = elim (values.unmarshal body) [
    | none ↦ (status_bad_request, m)
    | some value ↦
        let r = set entries snapshots env key value m in
        (if not (failed r.0) then status_no_content else status_internal_server_error, r.1)
  ]

  -- `handleInternalGet`: the status and the body.
  unfoldable pub handle_internal_get : Text → Memory → ℕ × List ℕ
  handle_internal_get key m = elim (get key m) [
    | none ↦ (status_not_found, [])
    | some value ↦ elim (values.marshal value) [
      | none ↦ (status_internal_server_error, [])
      | some body ↦ (status_ok, body)
    ]
  ]

  -- `handleInternalKV`; the key is the path behind the prefix.
  unfoldable pub handle_internal_kv : Env → Text → Text → List ℕ → Memory → (ℕ × List ℕ) × Memory
  unfolding handle_internal_put handle_internal_get
  handle_internal_kv env method key body m =
      if length key == 0
      then ((status_bad_request, []), m)
      else if text_eq method method_put
      then (let r = handle_internal_put env key body m in ((r.0, []), r.1))
      else if text_eq method method_get
      then (handle_internal_get key m, m)
      else ((status_method_not_allowed, []), m)

  -- A request that stores a value at another node: whether it is acknowledged, and the node's store.
  unfoldable pub send_value : Delivery → Env → Text → List ℕ → Memory → Bool × Memory
  unfolding handle_internal_kv
  send_value acknowledged env key body m =
      let r = handle_internal_kv env method_put key body m in (ltb r.0.0 300, r.1)
  send_value unacknowledged env key body m =
      (false, (handle_internal_kv env method_put key body m).1)
  send_value lost env key body m = (false, m)

module _ (values : Codec Value) where
  -- What `getReplica` makes of an answer: `none` is an error, `some none` a missing key. The test of
  -- the status is `> 300`.
  unfoldable pub read_answer : ℕ × List ℕ → Option (Option Value)
  read_answer answer =
      if answer.0 == 404
      then some none
      else if ltb 300 answer.0
      then none
      else elim (values.unmarshal answer.1) [ none ↦ none | some value ↦ some (some value) ]

module _ (routing : Routing) (entries : Codec Entry) (snapshots : Codec SnapshotData)
    (values : Codec Value) where
  -- `putReplica` by the node `addr`: whether it returns without an error, and the stores.
  unfoldable pub put_replica_at :
      Delivery → (Text → Env) → Text → Text → Text → Value → Memories → Bool × Memories
  unfolding send_value answered
  put_replica_at d envs addr replica key value mems =
      if text_eq replica addr
      then (let r = set entries snapshots (envs addr) key value (mems addr) in
          (not (failed r.0), set_memory addr r.1 mems))
      else elim (values.marshal value) [
        | none ↦ (false, mems)
        | some body ↦ elim (routing.put_route key) [
          | not_handled ok ↦ (answered d ok, mems)
          | read_as k ↦
              let r = send_value entries snapshots values d (envs replica) k body (mems replica) in
              (r.0, set_memory replica r.1 mems)
        ]
      ]

  -- `getReplica` by the node `addr`; `answers` tells whether the replica can be reached.
  unfoldable pub get_replica_at : Bool → Env → Text → Text → Text → Memories → Option (Option Value)
  unfolding handle_internal_kv read_answer
  get_replica_at answers env addr replica key mems =
      if text_eq replica addr
      then some (get key (mems addr))
      else if answers
      then elim (routing.get_route key) [
        | none ↦ none
        | some k ↦
            read_answer values
              (handle_internal_kv entries snapshots values env method_get k [] (mems replica)).0
      ]
      else none
