-- ===== src/Samples.antt =====
-- Concrete values of the parameters, for the tests.
use hidden_steps.Prelude.{
  Bool, List, Option, Result, Text, [], arith, codes, err, false, if◌then◌else◌, leb, none, ok,
  ok_inj, refl, some, text_eq, text_le, true, ℕ, ◌*◌, ◌+◌, ◌/◌, ◌<◌, ◌==◌, ◌∷◌, ◌≡◌,
}
use hidden_steps.Json.{Json}
use hidden_steps.Float.{Float}
use hidden_steps.HashMap.{HashOrder, Reordered, done, same}
use hidden_steps.Store.{Engine, EventStore, Serde}
use hidden_steps.Provider.{LlmProvider}

mutual
  pub data Node : Type 0 where
    text_node : Text → Node
    number_node : ℕ → Node
    boolean_node : Bool → Node
    array_node : Elements → Node
    object_node : Members → Node

  pub data Elements : Type 0 where
    no_element : Elements
    element : Node → Elements → Elements

  pub data Members : Type 0 where
    no_more : Members
    member : Text → Node → Members → Members

abbrev get_member : Text → Members → Option Node
get_member k no_more = none
get_member k (member name v rest) = if text_eq name k then some v else get_member k rest

abbrev members_of : Node → Option Members
members_of (object_node m) = some m
members_of (text_node t) = none
members_of (number_node n) = none
members_of (boolean_node b) = none
members_of (array_node a) = none

abbrev text_in : Node → Option Text
text_in (text_node t) = some t
text_in (object_node m) = none
text_in (number_node n) = none
text_in (boolean_node b) = none
text_in (array_node a) = none

abbrev truth_of : Node → Option Bool
truth_of (boolean_node b) = some b
truth_of (text_node t) = none
truth_of (number_node n) = none
truth_of (array_node a) = none
truth_of (object_node m) = none

abbrev elements_of : List Node → Elements
elements_of [] = no_element
elements_of (x ∷ xs) = element x (elements_of xs)

abbrev pub tree_json : Json
tree_json = record {
  Value = Node;
  Map = Members;
  string = text_node;
  number = number_node;
  boolean = boolean_node;
  array = λ xs. array_node (elements_of xs);
  object = object_node;
  empty = no_more;
  insert = member;
  get = get_member;
  as_object = members_of;
  as_str = text_in;
  as_bool = truth_of;
  as_object-object = λ m. refl;
  as_str-string = λ t. refl;
  as_bool-boolean = λ b. refl;
  get-empty = λ k. refl;
  get-insert = λ k j v m. refl;
}

abbrev total : List ℕ → ℕ
total [] = 0
total (n ∷ ns) = n + total ns

-- Whole numbers in place of floating-point ones.
abbrev pub whole : Float
whole = record {
  F = ℕ;
  of_ℕ = λ n. n;
  add = λ a b. a + b;
  mul = λ a b. a * b;
  div = λ a b. a / b;
  neg = λ a. a;
  log2 = λ a. a;
  sqrt = λ a. a;
  less_eq = leb;
  equal = λ a b. a == b;
  sum = total;
}

pub Reordered-same : {A : Type 0} (xs : List A) → Reordered xs xs
Reordered-same [] = done
Reordered-same (x ∷ xs) = same (Reordered-same xs)

abbrev pub in_order : HashOrder
in_order = record { order = λ xs. xs; order-Reordered = λ xs. Reordered-same xs }

-- A provider whose world counts the calls that reached it.
abbrev pub counting : Bool → LlmProvider ℕ ℕ
counting is_local = record {
  id = codes "counting";
  is_local = is_local;
  complete = λ q calls. (ok (record { text = q.prompt }), calls + 1);
  embed = λ t calls. (ok t, calls + 1);
}

-- A printer of the values that the tests store: texts, Booleans objects of one text and arrays of two.
abbrev pub print_name : Text → Text → Text
print_name [] v = 0 ∷ v
print_name (b ∷ k) v = 1 ∷ b ∷ print_name k v

abbrev read_name : Text → Text × Text
read_name (t ∷ b ∷ rest) =
    if t == 1 then (b ∷ (read_name rest).0, (read_name rest).1) else ([], b ∷ rest)
read_name _ = ([], [])

abbrev print_node : Node → Result Text Text
print_node (text_node t) = ok (0 ∷ t)
print_node (boolean_node true) = ok (1 ∷ [])
print_node (boolean_node false) = ok (2 ∷ [])
print_node (object_node (member k (text_node v) no_more)) = ok (3 ∷ print_name k v)
print_node (array_node (element (text_node a) (element (text_node b) no_element))) =
    ok (4 ∷ print_name a b)
print_node _ = err (codes "not printed")

abbrev read_node : Text → Result Node Text
read_node [] = err (codes "empty")
read_node (tag ∷ t) =
    let (k, v) = read_name t in
    if tag == 0
    then ok (text_node t)
    else if tag == 1
    then ok (boolean_node true)
    else if tag == 2
    then ok (boolean_node false)
    else if tag == 3
    then ok (object_node (member k (text_node v) no_more))
    else ok (array_node (element (text_node k) (element (text_node v) no_element)))

read-print_name : (k v : Text) → read_name (print_name k v) ≡ (k, v)
read-print_name [] [] = refl
read-print_name [] (b ∷ v) = refl
read-print_name (b ∷ k) v = rw (read-print_name k v) refl

pub read-print_node : (a : Node) (t : Text) → print_node a ≡ ok t → read_node t ≡ ok a
read-print_node (text_node s) t h = rw (← ok_inj h) refl
read-print_node (boolean_node true) t h = rw (← ok_inj h) refl
read-print_node (boolean_node false) t h = rw (← ok_inj h) refl
read-print_node (object_node (member k (text_node v) no_more)) t h =
    rw (← ok_inj h) (rw (read-print_name k v) refl)
read-print_node (number_node n) t h = cc
read-print_node (array_node (element (text_node a) (element (text_node b) no_element))) t h =
    rw (← ok_inj h) (rw (read-print_name a b) refl)
read-print_node (array_node no_element) t h = cc
read-print_node (array_node (element (text_node a) no_element)) t h = cc
read-print_node (array_node (element (text_node a) (element (text_node b) (element n r)))) t h = cc
read-print_node (array_node (element (text_node a) (element (number_node b) r))) t h = cc
read-print_node (array_node (element (text_node a) (element (boolean_node b) r))) t h = cc
read-print_node (array_node (element (text_node a) (element (array_node b) r))) t h = cc
read-print_node (array_node (element (text_node a) (element (object_node b) r))) t h = cc
read-print_node (array_node (element (number_node n) r)) t h = cc
read-print_node (array_node (element (boolean_node b) r)) t h = cc
read-print_node (array_node (element (array_node a) r)) t h = cc
read-print_node (array_node (element (object_node m) r)) t h = cc
read-print_node (object_node no_more) t h = cc
read-print_node (object_node (member k (text_node v) (member l w r))) t h = cc
read-print_node (object_node (member k (number_node n) r)) t h = cc
read-print_node (object_node (member k (boolean_node b) r)) t h = cc
read-print_node (object_node (member k (array_node a) r)) t h = cc
read-print_node (object_node (member k (object_node m) r)) t h = cc

pub nothing_printed :
    {A : Type 0} (a : A) (t : Text)
    → ◌≡◌ {A = Result Text Text} (err (codes "not printed")) (ok t)
    → ◌≡◌ {A = Result A Text} (err (codes "not read")) (ok a)
nothing_printed a t h = cc

-- A printer that prints nothing.
abbrev no_serde : {A : Type 0} → Serde A
no_serde = record {
  to_string = λ a. err (codes "not printed");
  from_str = λ t. err (codes "not read");
  read-print = nothing_printed;
}

abbrev read_time : Text → Result ℕ Text
read_time [] = err (codes "empty")
read_time (t ∷ rest) = ok t

pub time_order :
    (s t : ℕ)
    → s / 1000000000 < t / 1000000000
    → (text_le (s ∷ []) (t ∷ []) ≡ true) × (text_le (t ∷ []) (s ∷ []) ≡ false)
unfolding text_le
time_order s t h = let before : s < t = omega (arith, h) in ground (arith, before)

-- A point in time is printed as one code, and no query puts its rows in another order.
abbrev pub one_code : Engine Node
one_code = record {
  to_rfc3339 = λ t. t ∷ [];
  rfc3339_parse = read_time;
  parse-to_rfc3339 = λ t. refl;
  to_rfc3339-order = time_order;
  value_json = record {
    to_string = print_node;
    from_str = read_node;
    read-print = read-print_node;
  };
  texts_json = no_serde;
  alternatives_json = no_serde;
  order_by = λ key rows. rows;
  order_by_desc = λ key rows. rows;
  order_by-Reordered = λ key rows. Reordered-same rows;
  order_by_desc-Reordered = λ key rows. Reordered-same rows;
}

-- A store without data, as it is created.
abbrev pub empty_store : EventStore ℕ
empty_store = record {
  schema_version = [];
  privacy_state = none;
  enterprise_policy = none;
  event_summaries = record { next_id = 1; rows = [] };
  audit_log = record { next_id = 1; rows = [] };
  patterns = record { next_id = 1; rows = [] };
  pattern_events = [];
  pattern_embeddings = [];
  recommendations = record { next_id = 1; rows = [] };
  llm_providers = [];
  settings = [];
  observation_sources = [];
  workflow_nodes = [];
  workflow_edges = [];
}
