-- ===== src/Client/Topology/Masters.antt =====
-- crates/eventstream-client/src/lib.rs: the list of masters.
use redis_event_stream_modul.Base.{
  split_first, Str, text, contains, split_first, ◌&&◌, not, ◌==◌, if◌then◌else◌, Option, ◌=s=◌,
  Bool, false, List, [], ◌∷◌, none, some,
}
use redis_event_stream_modul.Client.Topology.{split_whitespace}

-- A text up to its first `@`, or the whole text.
unfoldable pub up_to_at : Str → Str
up_to_at [] = []
up_to_at (c ∷ s) = let rest = up_to_at s in if c == b'@' then [] else c ∷ rest

-- The second field of a line names the address, and its third one holds the flag of a master and none
-- of the flags of a node that does not serve.
unfoldable pub fields_serve : Str → List Str → Bool
fields_serve addr [] = false
fields_serve addr (id ∷ []) = false
fields_serve addr (id ∷ node ∷ []) = false
fields_serve addr (id ∷ node ∷ flags ∷ rest) =
    contains flags (text "master")
    && not (contains flags (text "fail"))
    && not (contains flags (text "noaddr"))
    && not (contains flags (text "handshake"))
    && up_to_at node =s= addr

abbrev pub line_serves : Str → Str → Bool
line_serves addr line = fields_serve addr (split_whitespace line)

abbrev names_address : Str → Option Str → Bool
names_address addr none = false
names_address addr (some a) = a =s= addr
