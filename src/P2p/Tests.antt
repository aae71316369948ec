-- ===== src/P2p/Tests.antt =====
-- The runs that the theorems on crates/agent/src/p2p/mod.rs are tried on.
use peer_deploy.Prelude.{
  String, List, ◌≡◌, ◌+◌, ◌≤◌, length, replicate, refl, true, false, none, some, [], ◌∷◌, arith,
}
use peer_deploy.Common.Job.{new}
use peer_deploy.JobManager.State.{JobManager, new_manager}
use peer_deploy.Prelude.Dict
use peer_deploy.Common.Component.{contains}
use peer_deploy.Storage.Store.{Disk, get_path, path_for_digest, list}
use peer_deploy.Deploy.State.{default_state, load_roles, load_state}
use peer_deploy.P2p.Content.{
  ContentNode, ContentEvent, storage_get, have, request, get, reply, tick, handle_each, handle_have,
  add_peer, handle_request, handle_get, handle_data, announce, answer, wait_for, answer_each, offer,
}
use peer_deploy.P2p.Content.Answers.{answered-handle_each}
use peer_deploy.P2p.Content.Waiting.{answered, waiting, requested}
use peer_deploy.P2p.Roles.{RolesNode, start_roles, update_roles}
use peer_deploy.P2p.Roles.Canonical.{
  update_each, restarted, update_roles-same, start_roles-update_each,
}
use peer_deploy.P2p.Broadcasts.{
  Key, key_eq, PendingJob, Queue, find, tick as tick_broadcasts, max_pending_broadcasts,
}
use peer_deploy.P2p.Delivery.{length-tick}
use peer_deploy.P2p.Delivery.Acks.{acknowledge_each, acknowledge_each_lem}
use peer_deploy.P2p.Status.{
  StatusNode, job_accepted, job_started, clean_cache, handle_status, deliver_each,
}
use peer_deploy.P2p.Duplicates.{handle_status_once}
use peer_deploy.P2p.Submit.{Host}
use peer_deploy.P2p.Samples.{no_codec, edge_job}

-- Two requests for a blob that is missing here, the answer of a peer, and a question of another.
abbrev empty_node : ContentNode
empty_node = record {
  store = record { blobs = []; entries = [] };
  content_index = [];
  pending_storage = [];
  answers = [];
  published = [];
}

abbrev writable_disk : Disk
writable_disk = record { blob_written = true; blob_left = none; index_written = true }

abbrev exchanged : List ContentEvent
exchanged =
    have "n2" "abcd"
    ∷ request writable_disk 100 true "abcd" 7
    ∷ request writable_disk 101 true "abcd" 8
    ∷ reply "abcd" (some (1 ∷ 2 ∷ []))
    ∷ get writable_disk 102 true "abcd"
    ∷ request writable_disk 103 true "abcd" 7
    ∷ tick
    ∷ []

abbrev after_exchange : ContentNode
after_exchange = record empty_node {
  content_index = ("abcd", "n2" ∷ []) ∷ [];
  pending_storage = ("abcd", 7 ∷ []) ∷ [];
  answers = (7, some (1 ∷ 2 ∷ [])) ∷ (8, some (1 ∷ 2 ∷ [])) ∷ [];
  published = storage_get "abcd" ∷ storage_get "abcd" ∷ storage_get "abcd" ∷ [];
}

answered-handle_each_example :
    answered 7 after_exchange.answers + waiting 7 after_exchange.pending_storage
    ≡ requested 7 exchanged
unfolding handle_each handle_have add_peer contains handle_request handle_get handle_data announce
    get_path path_for_digest Dict.get Dict.insert Dict.remove answer wait_for answer_each offer list
answered-handle_each_example =
    answered-handle_each 7 exchanged empty_node after_exchange tt refl refl refl

-- A node that is told its roles twice and started again.
abbrev member : RolesNode
member = record {
  local_peer_id = "n1";
  ephemeral = false;
  roles = "edge" ∷ [];
  dir = record {
    owner_pub = none;
    state_json = some (record default_state { roles = "edge" ∷ [] });
    desired_manifest = none;
    peers = none;
    artifacts = [];
    binaries = [];
  };
}

same_roles :
    (r : String) → contains ("web" ∷ "edge" ∷ "web" ∷ []) r ≡ contains ("edge" ∷ "web" ∷ []) r
unfolding contains
same_roles r = ground arith

update_roles-same_example :
    update_roles true ("n2" ∷ "n1" ∷ []) ("web" ∷ "edge" ∷ "web" ∷ []) member
    ≡ update_roles true ("n2" ∷ "n1" ∷ []) ("edge" ∷ "web" ∷ []) member
update_roles-same_example =
    update_roles-same true ("n2" ∷ "n1" ∷ []) ("web" ∷ "edge" ∷ "web" ∷ []) ("edge" ∷ "web" ∷ [])
      member same_roles

abbrev updates : List (List String × List String)
updates = ([], "web" ∷ "edge" ∷ "web" ∷ []) ∷ ("n2" ∷ [], "ui" ∷ []) ∷ []

start_roles-update_each_example :
    start_roles true (restarted (update_each updates member)) ≡ update_each updates member
unfolding load_roles load_state
start_roles-update_each_example = start_roles-update_each true updates member (refl, refl)

abbrev edge : Host
edge = record {
  node_id = "n1";
  roles = "edge" ∷ [];
  platform = "linux/x86_64";
  store = record { blobs = []; entries = [] };
  peers_with = λ digest. 2;
  nib = 4660;
  task = record { handle = 1; cancel_tx = 2 };
  now = λ i j. 100 + i + j;
  writable = λ i. true;
  meanwhile = λ i m. record m { last_update = 200 + i };
}

abbrev elsewhere : JobManager
elsewhere = record (new_manager none "n1" 100) {
  state = record {
    jobs =
        ("n9-1", record (new (λ i. 90 + i) "n9-1" "n9" edge_job) { assigned_node = some "n2" })
        ∷ [];
    next_id = 1;
  };
}

abbrev quiet : StatusNode
quiet = record { manager = elsewhere; seen_cache = []; acks = [] }

-- A start that is repeated twice, with another message in between.
handle_status_once_example :
    let n' =
      deliver_each no_codec
        (record {
          writable = true;
          clock = λ i. 101 + i;
          instant = 2000;
          command = job_accepted "n9-1" "n2" "m2";
        }
          ∷ [])
        (handle_status no_codec true (λ i. 100 + i) 1000 (job_started "n9-1" "n2" "m1") quiet) in
    (handle_status no_codec true (λ i. 102 + i) 3000 (job_started "n9-1" "n2" "m1") n').manager
    ≡ n'.manager
unfolding clean_cache Dict.get
handle_status_once_example =
    handle_status_once no_codec true true (λ i. 100 + i) (λ i. 102 + i) 1000 3000
      (job_started "n9-1" "n2" "m1") (job_started "n9-1" "n2" "m1")
      (record {
        writable = true;
        clock = λ i. 101 + i;
        instant = 2000;
        command = job_accepted "n9-1" "n2" "m2";
      }
        ∷ [])
      quiet refl refl ((omega arith, omega arith), tt) (omega arith, omega arith)

abbrev started_key : Key
started_key = record { job_id = "n9-1"; status = "started"; message_id = "m1" }

abbrev other_key : Key
other_key = record { job_id = "n9-1"; status = "accepted"; message_id = "m0" }

abbrev to_two : PendingJob
to_two = record {
  cmd = job_started "n9-1" "n1" "m1";
  peers = "n2" ∷ "n3" ∷ [];
  created = 1000;
  last_sent = 1000;
  retry_count = 0;
}

abbrev queue : Queue
queue = (other_key, to_two) ∷ (started_key, to_two) ∷ []

acknowledge_each_lem_example :
    (find started_key (acknowledge_each started_key ("n3" ∷ "n3" ∷ "n2" ∷ []) queue) ≡ none)
    × (find other_key (acknowledge_each started_key ("n3" ∷ "n3" ∷ "n2" ∷ []) queue)
        ≡ find other_key queue)
unfolding find key_eq contains
acknowledge_each_lem_example =
    acknowledge_each_lem started_key other_key ("n3" ∷ "n3" ∷ "n2" ∷ []) to_two queue refl refl
      (refl, (refl, tt)) refl

length-tick_example :
    length (tick_broadcasts 5000 ("n2" ∷ []) (λ i. 0) (replicate 60000 (started_key, to_two))).1
    ≤ max_pending_broadcasts
length-tick_example = length-tick 5000 ("n2" ∷ []) (λ i. 0) (replicate 60000 (started_key, to_two))
