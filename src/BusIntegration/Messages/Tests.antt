-- ===== src/BusIntegration/Messages/Tests.antt =====
-- A request of database 1 to database 2, which demands a record that it needs.
use odoo_addons.Base.{◌≡◌, refl, none, some, [], ◌∷◌}
use odoo_addons.StockJit.Levels.Sort.{sort_by, insert_by}
use odoo_addons.BusIntegration.Messages.{
  Direction, Treatment, Header, Message, header_of, create_message, get_same_cross_id_messages,
  get_parent_cross_id_messages, get_parent, receive_message, synchro_return_header,
  dependency_demand_header, dependency_response_header, ResultState, result_state, LogType, add_log,
}
use odoo_addons.BusIntegration.Messages.Parent.{answer-finds_request, response-replays_request}

abbrev new_request : Header
new_request = record {
  treatment = Treatment.synchronization;
  cross_id_origin_base = none;
  cross_id_origin_id = none;
  cross_id_origin_parent_id = none;
}

abbrev request : Message
request = create_message 10 1 new_request Direction.sent none

abbrev at_remote : Message
at_remote = receive_message 70 2 (header_of request) []

abbrev demand : Message
demand = receive_message 11 1 (dependency_demand_header at_remote) (request ∷ [])

abbrev response : Message
response = create_message 12 1 (dependency_response_header demand) Direction.sent (some demand.id)

child_of_request : demand.message_parent_id ≡ some 10
unfolding get_same_cross_id_messages get_parent_cross_id_messages sort_by insert_by
child_of_request = refl

-- 1:10>1:12, as in the comment of the class.
cross_id :
    (response.cross_id_origin_base ≡ 1)
    × (response.cross_id_origin_id ≡ 12)
    × (response.cross_id_origin_parent_id ≡ some 10)
cross_id = (refl, refl, refl)

finished : result_state (add_log 5 LogType.error request) ≡ ResultState.error
finished = refl

answer-finds_request_example :
    ((receive_message 11 1 (synchro_return_header at_remote) (request ∷ [])).message_parent_id
      ≡ some 10)
    × ((receive_message 11 1 (dependency_demand_header at_remote) (request ∷ [])).message_parent_id
        ≡ some 10)
answer-finds_request_example = answer-finds_request 10 70 11 1 2 new_request none [] [] [] tt tt

response-replays_request_example :
    get_parent (receive_message 71 2 (header_of response) (at_remote ∷ [])) (at_remote ∷ [])
    ≡ some at_remote
response-replays_request_example =
    response-replays_request 11 12 71 1 2 at_remote (request ∷ []) (at_remote ∷ []) [] [] refl refl
      tt tt
