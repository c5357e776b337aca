-- ===== src/Websocket/Subscriptions.antt =====
-- libs/shared/websocket/subscriptions.go: the desired and the active topics of a session. A Go set is a
-- list in which a topic stands once; the order of `range` over it is the list's. Each method runs under
-- a mutex.
use go_hft.Prelude.{ℕ, Bool, true, false, List, [], ◌∷◌, ◌==◌, ◌||◌, not, if◌then◌else◌, length}
use go_hft.Websocket.Types.{TopicId}

pub record Subscriptions : Type 0 where
  pub desired : List TopicId
  pub active : List TopicId

abbrev pub new_subscriptions : Subscriptions
new_subscriptions = record { desired = []; active = [] }

unfoldable pub has : List TopicId → TopicId → Bool
has [] topic = false
has (t ∷ ts) topic = t == topic || has ts topic

unfoldable pub without : List TopicId → TopicId → List TopicId
without [] topic = []
without (t ∷ ts) topic = let rest = without ts topic in if t == topic then rest else t ∷ rest

unfoldable pub include : List TopicId → TopicId → List TopicId
unfolding has
include ts topic = if has ts topic then ts else topic ∷ ts

unfoldable pub add : TopicId → Subscriptions → Bool × Subscriptions
unfolding include
add topic s = (not (has s.desired topic), record s { desired = include s.desired topic })

unfoldable pub remove : TopicId → Subscriptions → Bool × Subscriptions
unfolding has without
remove topic s =
    if has s.desired topic
    then (true, record { desired = without s.desired topic; active = without s.active topic })
    else (false, s)

unfoldable pub mark_active : TopicId → Subscriptions → Subscriptions
unfolding include
mark_active topic s = record s { active = include s.active topic }

unfoldable pub clear_active : Subscriptions → Subscriptions
clear_active s = record s { active = [] }

-- `Desired`: the topics, whatever `dst` had.
unfoldable pub desired_of : Subscriptions → List TopicId
desired_of s = s.desired

unfoldable pub count : Subscriptions → ℕ
count s = length s.desired
