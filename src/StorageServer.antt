-- ===== src/StorageServer.antt =====
-- src/storage/storage_server.cpp: the handlers of a storage node and their router.
-- A handler is an action on the node's disk storage that returns what became of its request: the
-- source calls `request.reply` more than once on some paths, and only the first call sends a reply.
-- A `std::runtime_error` that a handler catches is a reply; one that it does not catch leaves the
-- handler as a `throw`.
pub mod Removal
pub mod Failure
pub mod Requests
pub mod Asked
mod Examples
mod FailureExamples
use rackkey.Common.{
  ℕ, List, [], ◌∷◌, Bool, true, false, Option, none, some, list_beq, if◌then◌else◌, length,
}
use rackkey.Common.Results
use rackkey.Common.Results.{Result, ok, throw, fault}
use rackkey.Common.Exec.{Exec, pure, lift, gets, ◌>>=◌, ◌>>◌}
pub use rackkey.Http.{
  StatusCode, status_ok, internal_error, not_implemented, Reply, bare, Method, method_get,
  method_put, method_del, method_other, is_get,
}
use rackkey.Utils.{fixed_size, parse_path}
use rackkey.Block
use rackkey.Block.{Block}
use rackkey.Payloads.{SizeInfo, SyncInfo, read_nums, serialize_size, serialize_sync}
use rackkey.OrderedMap
use rackkey.OrderedMap.{OrderedMap}
use rackkey.OrderedMap.Order.{key_ord}
use rackkey.StoreFile.{Io}
use rackkey.DiskStorage.{DiskStorage, Action, data_used_size, data_total_size}
use rackkey.DiskStorage.Reading.{read_blocks, get_block_nums, get_keys, is_requested}
use rackkey.DiskStorage.Updating.{write_blocks, delete_blocks}

pub record Config : Type 0 where
  pub data_block_size : ℕ
  pub key_length_max : ℕ

-- A request, with what the system answers while it is handled: to the transfer of a section, to the
-- write of the table, and to the read of each key's section.
pub record Request : Type 0 where
  pub method : Method
  pub uri : List ℕ
  pub payload : List ℕ
  pub data_io : Io
  pub bat_io : Io
  pub section_ios : List Io

abbrev pub store_endpoint : List ℕ
store_endpoint = b'/' ∷ b's' ∷ b't' ∷ b'o' ∷ b'r' ∷ b'e' ∷ []

abbrev pub health_endpoint : List ℕ
health_endpoint = b'/' ∷ b'h' ∷ b'e' ∷ b'a' ∷ b'l' ∷ b't' ∷ b'h' ∷ []

abbrev pub sync_endpoint : List ℕ
sync_endpoint = b'/' ∷ b's' ∷ b'y' ∷ b'n' ∷ b'c' ∷ []

-- What became of a request: the reply that was sent, if any, and whether the handler then ended with
-- the exception that a second call of `request.reply` throws.
pub record Exchange : Type 0 where
  pub sent : Option Reply
  pub threw : Bool

abbrev pub unanswered : Exchange
unanswered = record { sent = none; threw = false }

abbrev pub answered : Reply → Exchange
answered r = record { sent = some r; threw = false }

-- `request.reply(r)`: a request that has its reply takes no other, and the call throws.
unfoldable pub reply : Reply → Exchange → Exchange
reply r exchange = elim exchange.sent [
  | none ↦ answered r
  | some _ ↦ record exchange { threw = true }
]

abbrev pub Handler : Type 0
Handler = Action Exchange

-- `blockNums.insert(blockNum)` on an unordered set, which is a list without repetitions here.
unfoldable pub insert_nums : List ℕ → List ℕ → List ℕ
insert_nums [] block_nums = block_nums
insert_nums (n ∷ nums) block_nums =
    insert_nums nums (if is_requested block_nums n then block_nums else n ∷ block_nums)

unfoldable pub requested_nums : List ℕ → Result (List ℕ)
unfolding insert_nums
requested_nums payload =
    Results.◌>>=◌ (read_nums (length payload) payload) λ nums. ok (insert_nums nums [])

-- `try { … } catch (std::runtime_error &e) { request.reply(InternalError); }`: the value if there is
-- one, and the reply if not.
unfoldable pub caught :
    {A : Type 0} → Result A × DiskStorage → (A → Exchange) → Result Exchange × DiskStorage
caught (ok a, ds) answer = (ok (answer a), ds)
caught (throw e, ds) answer = (ok (answered (bare internal_error)), ds)
caught (fault, ds) answer = (fault, ds)

unfoldable pub create_size_response_payload : DiskStorage → List ℕ
create_size_response_payload ds =
    serialize_size
      (record { data_used_size = data_used_size ds; data_total_size = data_total_size ds }) []

abbrev pub size_reply : DiskStorage → Reply
size_reply ds = record { status = status_ok; body = create_size_response_payload ds }

module _ (sha256_32 : List ℕ → ℕ) (config : Config) where
  unfoldable pub get_handler : List ℕ → List ℕ → Io → Handler
  unfolding requested_nums caught
  get_handler key payload io = do
    block_nums ← lift (requested_nums payload)
    λ ds.
        caught (read_blocks sha256_32 key block_nums config.data_block_size io ds)
          (λ blocks. answered (record { status = status_ok; body = Block.serialize_all blocks [] }))

  -- The `return` of the catch block leaves the lambda only: the second call of `reply` follows it.
  unfoldable pub put_handler : List ℕ → List ℕ → Io → Io → Handler
  unfolding caught reply
  put_handler key payload data_io bat_io = do
    blocks ← lift (Block.deserialize payload)
    exchange ← λ ds. caught (write_blocks sha256_32 key blocks data_io bat_io ds) (λ _. unanswered)
    response ← gets size_reply
    pure (reply response exchange)

  -- The catch block has no `return`.
  unfoldable pub delete_handler : List ℕ → Handler
  unfolding caught reply
  delete_handler key = do
    exchange ← λ ds. caught (delete_blocks sha256_32 key ds) (λ _. unanswered)
    response ← gets size_reply
    pure (reply response exchange)

  -- The loop over the keys; each read of a section has its own answer of the system, and the list
  -- has one for each key.
  unfoldable pub key_block_nums :
      List (List ℕ) → List Io → OrderedMap (List ℕ) (List ℕ) → Action (OrderedMap (List ℕ) (List ℕ))
  key_block_nums [] ios m = pure m
  key_block_nums (key ∷ keys) [] m = lift fault
  key_block_nums (key ∷ keys) (io ∷ ios) m = do
    block_nums ← get_block_nums sha256_32 key config.data_block_size io
    key_block_nums keys ios (OrderedMap.insert key block_nums m)

  unfoldable pub create_sync_response_payload : List Io → Action (List ℕ)
  unfolding key_block_nums
  create_sync_response_payload ios = do
    keys ← gets get_keys
    m ← key_block_nums keys ios []
    info ← gets (λ ds. record {
      key_block_num_map = m;
      size_info = record {
        data_used_size = data_used_size ds;
        data_total_size = data_total_size ds;
      };
    })
    pure (serialize_sync info [])

  unfoldable pub sync_handler : List Io → Handler
  unfolding create_sync_response_payload
  sync_handler ios = do
    body ← create_sync_response_payload ios
    pure (answered (record { status = status_ok; body = body }))

  unfoldable pub health_check_handler : Handler
  health_check_handler = pure (answered (bare status_ok))

  -- A method that an endpoint does not have is not answered at all.
  unfoldable pub router : Request → Handler
  unfolding get_handler put_handler delete_handler sync_handler health_check_handler
  router request =
      let (endpoint, param) = parse_path request.uri in
      let key = fixed_size param config.key_length_max in
      if list_beq endpoint store_endpoint
      then elim request.method [
        | method_get ↦ get_handler key request.payload request.data_io
        | method_put ↦ put_handler key request.payload request.data_io request.bat_io
        | method_del ↦ delete_handler key
        | method_other ↦ pure unanswered
      ]
      else if list_beq endpoint health_endpoint
      then (if is_get request.method then health_check_handler else pure unanswered)
      else if list_beq endpoint sync_endpoint
      then (if is_get request.method then sync_handler request.section_ios else pure unanswered)
      else pure (answered (bare not_implemented))
