-- ===== src/BusIntegration/Messages.antt =====
-- bus_integration/models/bus_message.py, `receive_message` of bus_receiver.py and the headers of
-- the answers of bus_exporter.py.
--
-- In a header, `none` is a base or an identifier that is missing, or a parent that is missing or
-- `False`. The name of the database that an answer goes to, the jobs that send and treat messages
-- and the exceptions of a message that is not well formed are left out.
pub mod Parent
mod Tests
use odoo_addons.Base.{
  ℕ, suc, Bool, true, false, ◌&&◌, ◌||◌, not, Option, none, some, List, [], ◌∷◌, ◌++◌, map, ltb,
  leb, ◌==◌, same_id, is_some, if◌then◌else◌, keep, mem, any,
}
use odoo_addons.StockJit.Levels.Sort.{sort_by}

pub data Direction : Type 0 where
  received sent : Direction

pub data Treatment : Type 0 where
  synchronization dependency_synchronization dependency_demand post_dependency_demand : Treatment
  synchronization_return deletion deletion_return check check_return : Treatment
  bus bus_return restrict_ids restrict_ids_return : Treatment

-- The part of the header of a message that says which request it belongs to.
pub record Header : Type 0 where
  pub treatment : Treatment
  pub cross_id_origin_base : Option ℕ
  pub cross_id_origin_id : Option ℕ
  pub cross_id_origin_parent_id : Option ℕ

-- `has_error`: a log of the message is an error, or the state of its body is.
pub record Message : Type 0 where
  pub id : ℕ
  pub direction : Direction
  pub treatment : Treatment
  pub cross_id_origin_base : ℕ
  pub cross_id_origin_id : ℕ
  pub cross_id_origin_parent_id : Option ℕ
  pub message_parent_id : Option ℕ
  pub date_done : Option ℕ
  pub has_error : Bool
  pub active : Bool

abbrev pub is_sent_type : Direction → Bool
is_sent_type sent = true
is_sent_type received = false

abbrev pub same_direction : Direction → Direction → Bool
same_direction sent d = is_sent_type d
same_direction received d = not (is_sent_type d)

abbrev pub value_or : Option ℕ → ℕ → ℕ
value_or none d = d
value_or (some a) d = a

-- `_explode_cross_origin_base_id_parent`, with the defaults of `create_message`.
abbrev pub explode : Header → ℕ → ℕ → ℕ × ℕ × Option ℕ
explode h base msg_id = (
  value_or h.cross_id_origin_base base,
  value_or h.cross_id_origin_id msg_id,
  h.cross_id_origin_parent_id,
)

-- The header that `create_message` writes back.
abbrev pub header_of : Message → Header
header_of m = record {
  treatment = m.treatment;
  cross_id_origin_base = some m.cross_id_origin_base;
  cross_id_origin_id = some m.cross_id_origin_id;
  cross_id_origin_parent_id = m.cross_id_origin_parent_id;
}

-- `create_message`, with the next identifier and the user of the sender of the configuration.
abbrev pub create_message : ℕ → ℕ → Header → Direction → Option ℕ → Message
create_message next_id username h direction parent_id =
    let ids = explode h username next_id in
    record {
      id = next_id;
      direction = direction;
      treatment = h.treatment;
      cross_id_origin_base = ids.0;
      cross_id_origin_id = ids.1;
      cross_id_origin_parent_id = ids.2;
      message_parent_id = parent_id;
      date_done = none;
      has_error = false;
      active = true;
    }

-- `order='id desc'`
abbrev pub newest : Message → Message → Bool
newest a b = leb b.id a.id

abbrev pub has_same_cross_id : Header → Message → Bool
has_same_cross_id h m =
    m.active
    && same_id (some m.cross_id_origin_base) h.cross_id_origin_base
    && same_id (some m.cross_id_origin_id) h.cross_id_origin_id
    && (if is_some h.cross_id_origin_parent_id
        then same_id m.cross_id_origin_parent_id h.cross_id_origin_parent_id
        else true)

pub get_same_cross_id_messages : Header → List Message → List Message
unfolding sort_by
get_same_cross_id_messages h db = sort_by newest (keep (has_same_cross_id h) db)

abbrev pub has_parent_cross_id : Header → Message → Bool
has_parent_cross_id h m =
    m.active
    && same_id (some m.cross_id_origin_base) h.cross_id_origin_base
    && same_id (some m.cross_id_origin_id) h.cross_id_origin_parent_id
    && is_sent_type m.direction

pub get_parent_cross_id_messages : Header → List Message → List Message
unfolding sort_by
get_parent_cross_id_messages h db = sort_by newest (keep (has_parent_cross_id h) db)

-- `_get_first_sent_message`
abbrev pub get_first_sent_message : List Message → Option Message
get_first_sent_message [] = none
get_first_sent_message (m ∷ ms) =
    let rest = get_first_sent_message ms in if is_sent_type m.direction then some m else rest

abbrev pub first_message : List Message → Option Message
first_message [] = none
first_message (m ∷ ms) = some m

abbrev pub is_parent_of : Message → Message → Bool
is_parent_of m x =
    x.active
    && x.cross_id_origin_base == m.cross_id_origin_base
    && same_id (some x.cross_id_origin_id) m.cross_id_origin_parent_id
    && same_direction x.direction m.direction

-- `get_parent`
pub get_parent : Message → List Message → Option Message
unfolding sort_by
get_parent m db =
    if is_some m.cross_id_origin_parent_id
    then first_message (sort_by newest (keep (is_parent_of m) db))
    else none

-- The first message if there is one, or the second.
abbrev pub parent_id : Option Message → Option Message → Option ℕ
parent_id (some m) second = some m.id
parent_id none (some m) = some m.id
parent_id none none = none

abbrev pub find_parent : Header → List Message → Option ℕ
find_parent h db =
    parent_id (get_first_sent_message (get_same_cross_id_messages h db))
      (get_first_sent_message (get_parent_cross_id_messages h db))

-- `receive_message`, of a message that is well formed.
abbrev pub receive_message : ℕ → ℕ → Header → List Message → Message
receive_message next_id username h db =
    create_message next_id username h received (find_parent h db)

-- The header of `send_synchro_return_message`, of the demands and of the response to a demand.
abbrev pub synchro_return_header : Message → Header
synchro_return_header m = record (header_of m) { treatment = synchronization_return }

abbrev pub dependency_demand_header : Message → Header
dependency_demand_header m = record (header_of m) { treatment = dependency_demand }

abbrev pub post_dependency_demand_header : Message → Header
post_dependency_demand_header m = record (header_of m) {
  treatment = post_dependency_demand;
  cross_id_origin_parent_id = none;
}

abbrev pub dependency_response_header : Message → Header
dependency_response_header m = record (header_of m) {
  treatment = dependency_synchronization;
  cross_id_origin_id = none;
  cross_id_origin_parent_id = some m.cross_id_origin_id;
}

abbrev pub post_dependency_response_header : Message → Header
post_dependency_response_header m = record (header_of m) {
  treatment = dependency_synchronization;
  cross_id_origin_parent_id = none;
}

pub data ResultState : Type 0 where
  inprogress error done : ResultState

-- `_compute_result_state`
abbrev pub result_state : Message → ResultState
result_state m = if is_some m.date_done then (if m.has_error then error else done) else inprogress

pub data LogType : Type 0 where
  info warning error processed : LogType

abbrev pub is_error_log : LogType → Bool
is_error_log error = true
is_error_log info = false
is_error_log warning = false
is_error_log processed = false

-- `add_log`: an error ends the message.
abbrev pub add_log : ℕ → LogType → Message → Message
add_log now type m =
    if is_error_log type then record m { has_error = true; date_done = some now } else m

-- The end of `process_received_message`: the messages with the same cross identifier are done.
abbrev pub set_done : ℕ → Message → List Message → List Message
set_done now m db =
    map (λ x. if has_same_cross_id (header_of m) x then record x { date_done = some now } else x) db
