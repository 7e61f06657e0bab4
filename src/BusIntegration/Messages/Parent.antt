-- ===== src/BusIntegration/Messages/Parent.antt =====
-- bus_integration: an answer finds the message that it answers.
use odoo_addons.Base.{
  ℕ, ◌≡◌, refl, ap, ◌∙◌, Bool, true, false, ◌&&◌, Option, none, some, List, [], ◌∷◌, ◌++◌, ◌==◌,
  same_id, is_some, if◌then◌else◌, keep, All, arith, Bool-cases, inl, inr,
}
use odoo_addons.StockJit.Levels.Sort.{insert_by, sort_by}
use odoo_addons.BusIntegration.Messages.{
  Direction, Treatment, Header, Message, is_sent_type, same_direction, header_of, create_message,
  newest, has_same_cross_id, get_same_cross_id_messages, get_first_sent_message,
  get_parent_cross_id_messages, parent_id, first_message, is_parent_of, get_parent, find_parent,
  receive_message, synchro_return_header, dependency_demand_header, dependency_response_header,
}

insert_by-not_sent :
    (m : Message) (ms : List Message)
    → is_sent_type m.direction ≡ false
    → get_first_sent_message (insert_by newest m ms) ≡ get_first_sent_message ms
unfolding insert_by
insert_by-not_sent m [] h = rw h refl
insert_by-not_sent m (x ∷ ms) h = elim (Bool-cases (newest m x)) [
  | inl t ↦ rw t rw h refl
  | inr t ↦
      rw t (ap (λ r. if is_sent_type x.direction then some x else r) (insert_by-not_sent m ms h))
]

insert_by-first_sent :
    (m : Message) (ms : List Message)
    → is_sent_type m.direction ≡ true
    → get_first_sent_message ms ≡ none
    → get_first_sent_message (insert_by newest m ms) ≡ some m
unfolding insert_by
insert_by-first_sent m [] h e = rw h refl
insert_by-first_sent m (x ∷ ms) h e = elim (Bool-cases (newest m x)) [
  | inl t ↦ rw t rw h refl
  | inr t ↦ elim (Bool-cases (is_sent_type x.direction)) [
    | inl s ↦ cc (rw s at e)
    | inr s ↦ rw t rw s (insert_by-first_sent m ms h (rw s at e))
  ]
]

-- No message that meets the test was sent.
abbrev NoneSent : (Message → Bool) → List Message → Type 0
NoneSent p ms = All (λ x. (p x && is_sent_type x.direction) ≡ false) ms

first_sent_none :
    (p : Message → Bool) (ms : List Message)
    → NoneSent p ms
    → get_first_sent_message (sort_by newest (keep p ms)) ≡ none
unfolding sort_by
first_sent_none p [] h = refl
first_sent_none p (x ∷ ms) h = elim (Bool-cases (p x)) [
  | inl t ↦
      let s : is_sent_type x.direction ≡ false = ground (arith, h.0) in
      rw t (insert_by-not_sent x (sort_by newest (keep p ms)) s ∙ first_sent_none p ms h.1)
  | inr t ↦ rw t (first_sent_none p ms h.1)
]

first_sent_only :
    (p : Message → Bool) (before : List Message) (m : Message) (later : List Message)
    → NoneSent p before
    → p m ≡ true
    → is_sent_type m.direction ≡ true
    → NoneSent p later
    → get_first_sent_message (sort_by newest (keep p (before ++ m ∷ later))) ≡ some m
unfolding sort_by
first_sent_only p [] m later b h s l =
    rw h (insert_by-first_sent m (sort_by newest (keep p later)) s (first_sent_none p later l))
first_sent_only p (x ∷ before) m later b h s l = elim (Bool-cases (p x)) [
  | inl t ↦
      let r : is_sent_type x.direction ≡ false = ground (arith, b.0) in
      rw t (
        insert_by-not_sent x (sort_by newest (keep p (before ++ m ∷ later))) r
        ∙ first_sent_only p before m later b.1 h s l)
  | inr t ↦ rw t (first_sent_only p before m later b.1 h s l)
]

==_refl : (a : ℕ) → (a == a) ≡ true
==_refl a = ground arith

same_id_refl : (o : Option ℕ) → same_id o o ≡ true
same_id_refl none = refl
same_id_refl (some a) = ==_refl a

same_cross_id_self :
    (m : Message) (t : Treatment)
    → m.active ≡ true
    → has_same_cross_id (record (header_of m) { treatment = t }) m ≡ true
same_cross_id_self m t h =
    rw h rw (==_refl m.cross_id_origin_base) rw (==_refl m.cross_id_origin_id)
      (given m.cross_id_origin_parent_id)
  where
    given : (o : Option ℕ) → (if is_some o then same_id o o else true) ≡ true
    given none = refl
    given (some a) = ==_refl a

find_parent-answer :
    (m : Message) (t : Treatment) (before later : List Message)
    → m.active ≡ true
    → is_sent_type m.direction ≡ true
    → NoneSent (has_same_cross_id (header_of m)) before
    → NoneSent (has_same_cross_id (header_of m)) later
    → find_parent (record (header_of m) { treatment = t }) (before ++ m ∷ later) ≡ some m.id
unfolding get_same_cross_id_messages
find_parent-answer m t before later active s b l =
    let h : Header = record (header_of m) { treatment = t } in
    ap
      (λ o.
        parent_id o (get_first_sent_message (get_parent_cross_id_messages h (before ++ m ∷ later))))
      (first_sent_only (has_same_cross_id h) before m later b (same_cross_id_self m t active) s l)

-- A request is sent to another database, which answers with the header that it received. The answer,
-- a response or a demand for records that it needs, is stored at home as a child of the request, if
-- the other messages at home with the cross identifier of the request were received.
pub answer-finds_request :
    (next_id remote_id answer_id user remote_user : ℕ) (h : Header) (parent : Option ℕ)
    (before later remote_db : List Message)
    → let m = create_message next_id user h Direction.sent parent in
      NoneSent (has_same_cross_id (header_of m)) before
      → NoneSent (has_same_cross_id (header_of m)) later
      → let r = receive_message remote_id remote_user (header_of m) remote_db in
        let home = before ++ m ∷ later in
        ((receive_message answer_id user (synchro_return_header r) home).message_parent_id
          ≡ some m.id)
        × ((receive_message answer_id user (dependency_demand_header r) home).message_parent_id
            ≡ some m.id)
answer-finds_request next_id remote_id answer_id user remote_user h parent before later remote_db b
      l =
    let m = create_message next_id user h Direction.sent parent in
    (
      find_parent-answer m Treatment.synchronization_return before later refl refl b l,
      find_parent-answer m Treatment.dependency_demand before later refl refl b l,
    )

abbrev NoneSuch : (Message → Bool) → List Message → Type 0
NoneSuch p ms = All (λ x. p x ≡ false) ms

keep_none : (p : Message → Bool) (ms : List Message) → NoneSuch p ms → keep p ms ≡ []
keep_none p [] h = refl
keep_none p (x ∷ ms) h = rw h.0 (keep_none p ms h.1)

keep_only :
    (p : Message → Bool) (before : List Message) (m : Message) (later : List Message)
    → NoneSuch p before
    → p m ≡ true
    → NoneSuch p later
    → keep p (before ++ m ∷ later) ≡ m ∷ []
keep_only p [] m later b h l = rw h (ap (λ ms. m ∷ ms) (keep_none p later l))
keep_only p (x ∷ before) m later b h l = rw b.0 (keep_only p before m later b.1 h l)

-- A demand of records that a received request needs is answered with them. The answer replays that
-- request: it is the parent of the answer where this arrives, if no other received message there is
-- one of the same cross identifier.
pub response-replays_request :
    (demand_id response_id arrival_id user remote_user : ℕ) (r : Message)
    (demand_db response_db before later : List Message)
    → r.active ≡ true
    → is_sent_type r.direction ≡ false
    → let d = receive_message demand_id user (dependency_demand_header r) demand_db in
      let response =
        create_message response_id user (dependency_response_header d) Direction.sent (some d.id) in
      let arrival = receive_message arrival_id remote_user (header_of response) response_db in
      NoneSuch (is_parent_of arrival) before
      → NoneSuch (is_parent_of arrival) later
      → get_parent arrival (before ++ r ∷ later) ≡ some r
unfolding get_parent sort_by insert_by
response-replays_request demand_id response_id arrival_id user remote_user r demand_db response_db
      before later active got b l =
    let d = receive_message demand_id user (dependency_demand_header r) demand_db in
    let response =
      create_message response_id user (dependency_response_header d) Direction.sent (some d.id) in
    let arrival = receive_message arrival_id remote_user (header_of response) response_db in
    ap (λ ms. first_message (sort_by newest ms))
      (keep_only (is_parent_of arrival) before r later b (meets r active got) l)
  where
    of_direction :
        (d : Direction) → is_sent_type d ≡ false → same_direction d Direction.received ≡ true
    of_direction Direction.received g = refl
    of_direction Direction.sent g = cc

    meets :
        (x : Message)
        → x.active ≡ true
        → is_sent_type x.direction ≡ false
        → (x.active
            && x.cross_id_origin_base == x.cross_id_origin_base
            && x.cross_id_origin_id == x.cross_id_origin_id
            && same_direction x.direction Direction.received)
          ≡ true
    meets x h g =
        rw h rw (==_refl x.cross_id_origin_base) rw (==_refl x.cross_id_origin_id)
          (of_direction x.direction g)
