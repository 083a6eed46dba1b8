-- ===== src/Examples/Framings.antt =====
-- Messages on a connection, and connections that are classified.
use nvda_remote_go.Prelude.{
  Bytes, List, [], ◌∷◌, ◌++◌, none, some, false, codes, refl, ◌≡◌, ◌↔◌, contains,
}
use nvda_remote_go.Framing.Raw.{read_message}
use nvda_remote_go.Framing.RoundTrip.{
  read_message_iff, written, read_messages, read_messages-written,
}

read_message_iff_example :
    ((read_message 10 (codes "ab" ++ 10 ∷ codes "c") ≡ some (codes "ab", codes "c")) ↔ (
      (contains 10 (codes "ab") ≡ false)
      × (codes "ab" ++ 10 ∷ codes "c" ≡ codes "ab" ++ 10 ∷ codes "c")))
    × ((read_message 10 (codes "ab" ++ 10 ∷ codes "c") ≡ none)
        ↔ (contains 10 (codes "ab" ++ 10 ∷ codes "c") ≡ false))
read_message_iff_example =
    read_message_iff 10 (codes "ab" ++ 10 ∷ codes "c") (codes "ab") (codes "c")

abbrev two : List Bytes
two = codes "{a}" ∷ codes "b" ∷ []

read_messages-written_example :
    read_messages 10 2 (written 10 two ++ codes "{") ≡ some (two, codes "{")
read_messages-written_example = read_messages-written 10 two (codes "{") (refl, (refl, tt))
