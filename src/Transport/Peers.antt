-- ===== src/Transport/Peers.antt =====
-- The ROUTER peers of src/transport.rs: the table of the connected peers, the replies to them, and what a
-- peer's connection reads.
use kernmini.Prelude.{
  ℕ, ◌≡◌, refl, Bytes, bytes_eq, nat_eq, string_eq, false, ◌&&◌, List, [], ◌∷◌, Option, none, some,
  ◌==◌, if◌then◌else◌, map_or, arith,
}

-- `HashMap<Bytes, ReplySink>`: a sink is the number of its channel, so that `same_channel` is equality.
abbrev pub Table : Type 0
Table = List (Bytes × ℕ)

unfoldable pub find_peer : Bytes → Table → Option ℕ
find_peer id [] = none
find_peer id ((j, sink) ∷ table) = if j == id then some sink else find_peer id table

unfoldable pub erase : Bytes → Table → Table
erase id [] = []
erase id ((j, sink) ∷ table) =
    let rest = erase id table in if j == id then rest else (j, sink) ∷ rest

-- `RouterPeers::insert`, which replaces the sink of a peer with this identity.
unfoldable pub insert_peer : Bytes → ℕ → Table → Table
unfolding erase
insert_peer id sink table = (id, sink) ∷ erase id table

-- `RouterPeers::remove`, at the end of a connection
unfoldable pub remove_peer : Bytes → ℕ → Table → Table
unfolding erase find_peer
remove_peer id sink table =
    if map_or false (λ current. current == sink) (find_peer id table) then erase id table else table

-- What the connections do to the table.
pub data Event : Type 0 where
  connected disconnected : Bytes → ℕ → Event

abbrev pub perform : Event → Table → Table
perform (connected id sink) table = insert_peer id sink table
perform (disconnected id sink) table = remove_peer id sink table

abbrev pub perform_all : List Event → Table → Table
perform_all [] table = table
perform_all (e ∷ events) table = perform_all events (perform e table)

find_peer-erase :
    (id k : Bytes) (table : Table)
    → find_peer k (erase id table) ≡ (if id == k then none else find_peer k table)
unfolding find_peer erase
find_peer-erase id k [] = ground arith
find_peer-erase id k ((j, sink) ∷ table) = ground (arith, find_peer-erase id k table)

-- One peer's cell of the table: its current sink, if it is connected.
abbrev pub cell : Bytes → Event → Option ℕ → Option ℕ
cell k (connected id sink) current = if id == k then some sink else current
cell k (disconnected id sink) current =
    if id == k && map_or false (λ c. c == sink) current then none else current

abbrev pub cell_all : Bytes → List Event → Option ℕ → Option ℕ
cell_all k [] current = current
cell_all k (e ∷ events) current = cell_all k events (cell k e current)

find_peer-perform :
    (k : Bytes) (e : Event) (table : Table)
    → find_peer k (perform e table) ≡ cell k e (find_peer k table)
unfolding insert_peer remove_peer find_peer
find_peer-perform k (connected id sink) table = ground (arith, find_peer-erase id k table)
find_peer-perform k (disconnected id sink) table = ground (arith, find_peer-erase id k table)

-- The table of peers refines one cell for each identity, which a connection fills and only the end of
-- the same connection empties, through any connections and ends of connections.
pub find_peer-perform_all :
    (k : Bytes) (events : List Event) (table : Table)
    → find_peer k (perform_all events table) ≡ cell_all k events (find_peer k table)
find_peer-perform_all k [] table = refl
find_peer-perform_all k (e ∷ events) table =
    rw (find_peer-perform_all k events (perform e table), find_peer-perform k e table)
