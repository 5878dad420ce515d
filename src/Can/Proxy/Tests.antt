-- ===== src/Can/Proxy/Tests.antt =====
-- A proxy for two requests: with none, and with a request for the information of a file that waits.
use i2c.Prelude.{
  ℕ, zero, suc, ◌+◌, ◌*◌, ◌/◌, ◌%◌, ◌≤◌, ◌<◌, ◌≡◌, ◌⊎◌, refl, Bool, true, false, Option, none, some,
  List, [], ◌∷◌, ◌++◌, arith, get_elem?, All, take, drop, inl,
}
use i2c.Core.{FieldType, from_bytes, size_of_field_type}
use i2c.Can.Proxy.Info.{received_field_info}
use i2c.Can.Proxy.Respond.Texts.{received_field_info_overrun}
use i2c.Queue.{advance, is_empty, pop}
use i2c.Queue.Refine.{slot}
use i2c.Pool.{RequestPool, alloc}
use i2c.Pool.Ownership.{Owns}
use i2c.Linked.{LinkedList, push_back, allocate, append_node}
use i2c.Linked.Chain.{IsList, Absent}
use i2c.Can.Hashes.{TransferType}
use i2c.Can.Transfer.{RxTransfer, Service, service_number, decode_integer_field, result_of}
use i2c.Can.Proxy.State.{
  Environment, Context, ProxyRequestDescriptor, Status, CanProxy, file_id, Effect, send_request,
  notify, is_valid, enqueue, make_request, transmit, number_of, set_number,
}
use i2c.Can.Proxy.Expiry.{
  CallbackResult, may_run, on_timeout_occurred, purge_request_descriptors,
  purge_timed_out_descriptors,
}
use i2c.Can.Proxy.Answer.{process_get_file_info_response, response_result, received_file_info}
use i2c.Can.Proxy.Client.{file_request_info, submit}
use i2c.Device.{on_file_info_received}
use i2c.Can.Proxy.Receive.{answers, process_service_response, on_message_received}
use i2c.Can.Proxy.Sound.{Sound}
use i2c.Can.Proxy.Purge.{
  end_effects, expired, unexpired, next_deadline, purge_timed_out_descriptors_lem,
}
use i2c.Can.Proxy.Ask.{ask_file_info, ask}
use i2c.Can.Proxy.Ask.Each.{Asked, ask-Sound}
use i2c.Can.Proxy.Respond.Counts.{answered}
use i2c.Can.Proxy.Respond.Step.{Described}
use i2c.Can.Proxy.Respond.Whole.{Ended, Unasked}
use i2c.Can.Proxy.Respond.Unmatched.{process_service_response_lem}
use i2c.Can.Proxy.Account.{Balanced, no_more}
use i2c.Can.Proxy.Account.Received.{on_message_received-Balanced}
use i2c.Can.Proxy.Account.Timeout.{on_timeout_occurred-Balanced}
use i2c.Can.Proxy.Account.Run.{begins, asks, made_by, Run-answered}
use i2c.Can.Proxy.Life.{new_info, new_proxy, no_numbers, assign, new_proxy-Sound, assign-Sound}

-- Bytes of the payload, little endian.
abbrev read_bytes : List ℕ → ℕ → ℕ → Bool → Option ℕ
read_bytes payload bit count signed = some (from_bytes (take (count / 8) (drop (bit / 8) payload)))

abbrev two_requests : Environment
two_requests = record {
  max_request_count = 2;
  request_timeout = 100;
  offline_timeout = 3000;
  advance = λ n. (n + 1) % 32;
  scalar = read_bytes;
  memory = λ i. 0;
}

abbrev healthy : Status
healthy = record { mode = 1; health = 0; flags = 0 }

abbrev unused_request : ProxyRequestDescriptor
unused_request = record {
  destination = 255;
  refs = 0;
  observer = none;
  token = 0;
  deadline = 0;
  service = 0;
  number = 0;
  context = Context.file 0 0;
}

-- The request of the observer 7 with the token 9, made at the time 5.
abbrev file_request : ProxyRequestDescriptor
file_request = record {
  destination = 42;
  refs = 0;
  observer = some 7;
  token = 9;
  deadline = 105;
  service = 204;
  number = 0;
  context = Context.file 3 0;
}

abbrev free_pool : RequestPool ProxyRequestDescriptor
free_pool = record {
  pool = unused_request ∷ unused_request ∷ [];
  requests = record { storage = 0 ∷ 1 ∷ []; elements = 2; head = 0; tail = 0 };
}

free_pool-Owns : Owns 2 free_pool (0 ∷ 1 ∷ []) []
unfolding advance slot
free_pool-Owns = record {
  sized = refl;
  queued = record {
    sized = refl;
    bounded = omega arith;
    head_in = omega arith;
    count = refl;
    fits = omega arith;
    tail_at = refl;
    window = (refl, (refl, tt));
  };
  all = refl;
  once = λ i. ground arith;
}

abbrev empty_list : LinkedList ℕ
empty_list = record {
  first = none;
  links = none ∷ none ∷ [];
  values = 0 ∷ 0 ∷ [];
  pool = 0 ∷ 1 ∷ [];
  available = 2;
}

empty_list-IsList : IsList 2 empty_list [] []
empty_list-IsList = record {
  links_sized = refl;
  values_sized = refl;
  pool_sized = refl;
  chain = tt;
  distinct = tt;
  room = refl;
  apart = λ k node small found. (inside k node small found, tt);
  once = same;
}
  where
    inside : (k node : ℕ) → k < 2 → get_elem? (0 ∷ 1 ∷ []) k ≡ some node → node < 2
    inside zero node small found = let at : 0 ≡ node = cc in omega (arith, at)
    inside (suc zero) node small found = let at : 1 ≡ node = cc in omega (arith, at)
    inside (suc (suc k)) node small found = absurd (omega (arith, small))

    place : (k node : ℕ) → k < 2 → get_elem? (0 ∷ 1 ∷ []) k ≡ some node → k ≡ node
    place zero node small found = cc
    place (suc zero) node small found = cc
    place (suc (suc k)) node small found = absurd (omega (arith, small))

    same :
        (j k node : ℕ)
        → j < 2
        → k < 2
        → get_elem? (0 ∷ 1 ∷ []) j ≡ some node
        → get_elem? (0 ∷ 1 ∷ []) k ≡ some node
        → j ≡ k
    same j k node small small' found found' =
        let at = place j node small found in
        let at' = place k node small' found' in omega (arith, at, at')

abbrev start : CanProxy
start = new_proxy 5 42 healthy (FieldType.bool ∷ FieldType.bool ∷ []) free_pool empty_list

start-Sound : Sound two_requests start []
start-Sound =
    new_proxy-Sound two_requests 5 42 healthy (FieldType.bool ∷ FieldType.bool ∷ []) free_pool
      empty_list (0 ∷ 1 ∷ []) free_pool-Owns empty_list-IsList (omega arith)

-- The request waits.
abbrev busy : CanProxy
busy = record start {
  pool = record {
    pool = file_request ∷ unused_request ∷ [];
    requests = record { storage = 0 ∷ 1 ∷ []; elements = 1; head = 1; tail = 0 };
  };
  requests = record {
    first = some 1;
    links = none ∷ none ∷ [];
    values = 0 ∷ 0 ∷ [];
    pool = 0 ∷ 1 ∷ [];
    available = 1;
  };
}

busy-Owns : Owns 2 busy.pool (1 ∷ []) (0 ∷ [])
unfolding advance slot new_proxy
busy-Owns = record {
  sized = refl;
  queued = record {
    sized = refl;
    bounded = omega arith;
    head_in = omega arith;
    count = refl;
    fits = omega arith;
    tail_at = refl;
    window = (refl, tt);
  };
  all = refl;
  once = λ i. ground arith;
}

busy-IsList : IsList 2 busy.requests (1 ∷ []) (0 ∷ [])
unfolding new_proxy
busy-IsList = record {
  links_sized = refl;
  values_sized = refl;
  pool_sized = refl;
  chain = (none, refl, refl, refl, tt);
  distinct = (tt, tt);
  room = refl;
  apart = apart;
  once = λ j k node small small' found found'. omega (arith, small, small');
}
  where
    apart :
        (k node : ℕ)
        → k < 1
        → get_elem? (0 ∷ 1 ∷ []) k ≡ some node
        → (node < 2) × Absent node (1 ∷ [])
    apart zero node small found =
        let at : 0 ≡ node = cc in (omega (arith, at), (λ e. absurd (omega (arith, at, e)), tt))
    apart (suc k) node small found = absurd (omega (arith, small))

busy-Sound : Sound two_requests busy (file_request ∷ [])
unfolding new_proxy new_info service_number
busy-Sound = record {
  pending = (
    1 ∷ [],
    0 ∷ [],
    1 ∷ [],
    record { owns = busy-Owns; listed = busy-IsList; filled = (refl, tt); unshared = (refl, tt) },
  );
  fitting = (inl refl, tt);
  known = omega arith;
  small = omega arith;
  progress = refl;
  named = (refl, refl);
}

-- The answer to the request, with a size and a checksum.
abbrev file_answer : RxTransfer
file_answer = record {
  data_type_id = 204;
  transfer_type = TransferType.response;
  transfer_id = 0;
  source_node_id = 42;
  destination_node_id = 1;
  payload = 0 ∷ 1 ∷ 44 ∷ 1 ∷ 0 ∷ 0 ∷ 1 ∷ 2 ∷ 3 ∷ 4 ∷ [];
}

file_answer-Described : Described two_requests file_answer
unfolding service_number
file_answer-Described = (omega arith, λ wrong success. absurd (omega (arith, wrong)))

ask-Sound_example :
    Asked two_requests 5
      (ask_file_info 3 1)
      (some 7)
      9
      start
      []
      (ask two_requests 5 (ask_file_info 3 1) (some 7) 9 start)
ask-Sound_example = ask-Sound two_requests 5 (ask_file_info 3 1) (some 7) 9 start [] start-Sound tt

process_service_response_lem_example :
    ((before : List ProxyRequestDescriptor) × (d : ProxyRequestDescriptor) × (later : List
        ProxyRequestDescriptor)
      × (file_request ∷ [] ≡ before ++ d ∷ later)
      × All (λ d. answers 204 0 d ≡ false) before
      × (answers 204 0 d ≡ true)
      × Ended two_requests before d later
          (process_service_response two_requests 20 21 file_answer busy))
    ⊎ (All (λ d. answers 204 0 d ≡ false) (file_request ∷ [])
        × Unasked two_requests
            (file_request ∷ [])
            (process_service_response two_requests 20 21 file_answer busy))
process_service_response_lem_example =
    process_service_response_lem two_requests 20 21 file_answer busy (file_request ∷ []) busy-Sound
      file_answer-Described

busy_valid : is_valid busy ≡ true
unfolding is_valid new_proxy new_info
busy_valid = refl

on_message_received-Balanced_example :
    (r : CanProxy × List Effect) × (on_message_received two_requests 1 20 21 file_answer busy
      ≡ some r)
    × Balanced two_requests (file_request ∷ []) no_more r
on_message_received-Balanced_example =
    on_message_received-Balanced two_requests 1 20 21 file_answer busy (file_request ∷ [])
      busy-Sound file_answer-Described busy_valid

busy-runs : may_run busy ≡ true
unfolding may_run is_valid new_proxy new_info
busy-runs = refl

on_timeout_occurred-Balanced_example :
    (p' : CanProxy) × (effects : List Effect) × (wake : ℕ) × (on_timeout_occurred two_requests 105
        106 true 900 busy
      ≡ some (p', effects, wake))
    × (wake ≤ next_deadline (unexpired 105 (file_request ∷ [])))
    × Balanced two_requests (file_request ∷ []) no_more (p', effects)
on_timeout_occurred-Balanced_example =
    on_timeout_occurred-Balanced two_requests 105 106 true 900 busy (file_request ∷ []) busy-Sound
      busy-runs

purge_timed_out_descriptors_lem_example :
    (pool : RequestPool ProxyRequestDescriptor) × (requests : LinkedList ℕ)
    × (purge_timed_out_descriptors two_requests 105 busy
        ≡ some (
          record busy { requests = requests; pool = pool },
          end_effects CallbackResult.generic_timeout (expired 105 (file_request ∷ [])),
          next_deadline (unexpired 105 (file_request ∷ [])),
        ))
    × Sound two_requests
        (record busy { requests = requests; pool = pool })
        (unexpired 105 (file_request ∷ []))
purge_timed_out_descriptors_lem_example =
    purge_timed_out_descriptors_lem two_requests 105 busy (file_request ∷ []) busy-Sound

assign-Sound_example :
    (p' : CanProxy) × (assign two_requests 8 (new_proxy 8 43 healthy [] free_pool empty_list) busy
      ≡ some (p', end_effects CallbackResult.component_detached (file_request ∷ [])))
    × Sound two_requests p' []
    × (p'.info ≡ new_info 8 43 healthy [])
assign-Sound_example =
    assign-Sound two_requests 8 43 healthy [] free_pool empty_list busy (file_request ∷ [])
      busy-Sound (omega arith)

-- The proxy behind the request for the information of the file.
abbrev asked : CanProxy
asked = record busy { numbers = record busy.numbers { get_file_info = 1 } }

asked_run :
    ask two_requests 5 (ask_file_info 3 1) (some 7) 9 start
    ≡ some (asked, send_request 42 Service.get_file_info 0 (3 ∷ 1 ∷ []) ∷ [])
unfolding ask file_request_info submit enqueue make_request transmit alloc is_empty pop advance
    push_back allocate append_node number_of set_number service_number new_proxy new_info no_numbers
asked_run = refl

Run-answered_example :
    (p' : CanProxy) × (ended : List Effect) × (purge_request_descriptors two_requests asked
      ≡ some (p', ended))
    × Sound two_requests p' []
    × ((observer token : ℕ)
        → answered observer token
            ((send_request 42 Service.get_file_info 0 (3 ∷ 1 ∷ []) ∷ []) ++ ended)
          ≡ made_by observer token ((some 7, 9) ∷ []))
Run-answered_example =
    Run-answered two_requests start-Sound
      (asks begins 5 (ask_file_info 3 1) (some 7) 9 tt asked_run)

-- The answer tells the observer the size and the checksum.
answered_run :
    process_get_file_info_response two_requests file_answer (some file_request) busy
    ≡ some (
        notify 7 9 (
          on_file_info_received
            (record { index = 3; flags = 1; size = 300; checksum = 0x04030201 }))
        ∷ [])
unfolding process_get_file_info_response file_id response_result received_file_info
    decode_integer_field result_of
answered_run = refl

-- The start of a description with a unit of 16 characters.
abbrev long_unit : List ℕ
long_unit = 0 ∷ 6 ∷ 0 ∷ 1 ∷ 0 ∷ 1 ∷ 255 ∷ 16 ∷ []

long_unit-length :
    16
    ≤ decode_integer_field two_requests.scalar long_unit 1 false
        (5 + size_of_field_type FieldType.uint8 * 2)
unfolding decode_integer_field size_of_field_type
long_unit-length = omega arith

received_field_info_overrun_example :
    received_field_info two_requests 4 FieldType.uint8 long_unit ≡ none
received_field_info_overrun_example =
    received_field_info_overrun two_requests 4 FieldType.uint8 long_unit long_unit-length
