-- ===== src/MessageQueue.antt =====
-- src/messagequeue.rs: the queue of daemon messages, newest first. A timestamp, which the source
-- formats from the clock, is an argument.
use ebbflow.Prelude.{ℕ, String, ◌≡◌, refl, ap, ◌∙◌, List, [], ◌∷◌, take, take-cons-take}

abbrev pub MessageQueue : Type 0
MessageQueue = List (String × String)

abbrev pub capacity : ℕ
capacity = 25

unfoldable pub new : MessageQueue
new = []

-- `push_front`, then `truncate(25)`
unfoldable pub add_message : String → String → MessageQueue → MessageQueue
add_message now m q = take capacity ((now, m) ∷ q)

unfoldable pub get_messages : MessageQueue → List (String × String)
get_messages q = q

-- A history of messages, oldest first, posted to a queue.
unfoldable pub add_messages : List (String × String) → MessageQueue → MessageQueue
add_messages [] q = q
add_messages ((now, m) ∷ rest) q = add_messages rest (add_message now m q)

abbrev newest_first : List (String × String) → List (String × String) → List (String × String)
newest_first [] acc = acc
newest_first (m ∷ rest) acc = newest_first rest (m ∷ acc)

add_messages-eq-take :
    (ms acc : List (String × String))
    → add_messages ms (take capacity acc) ≡ take capacity (newest_first ms acc)
unfolding add_messages add_message
add_messages-eq-take [] acc = refl
add_messages-eq-take ((now, m) ∷ rest) acc =
    ap (add_messages rest) (take-cons-take capacity (now, m) acc)
    ∙ add_messages-eq-take rest ((now, m) ∷ acc)

-- Whatever was posted, `get_messages` shows the 25 newest messages, newest first.
pub get-add_messages :
    (ms : List (String × String))
    → get_messages (add_messages ms new) ≡ take 25 (newest_first ms [])
unfolding get_messages new
get-add_messages ms = add_messages-eq-take ms []
