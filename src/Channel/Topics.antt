-- ===== src/Channel/Topics.antt =====
-- What it means that the server keeps a list of topics: each is a text "NAME:body" in the row that
-- its entry of `allServerData` points to.
pub mod Frame
use publisher_subscriber_ser.Base.{
  ℕ, suc, ◌+◌, ◌<◌, ◌≤◌, ◌≡◌, Bool, Option, none, some, List, [], ◌∷◌, ◌++◌, ltb, if◌then◌else◌,
  length,
}
use publisher_subscriber_ser.Text.{Free, Str}
use publisher_subscriber_ser.Text.Loops.{same}
use publisher_subscriber_ser.Channel.{Channel}

pub record Topic : Type 0 where
  pub name : List ℕ
  pub body : List ℕ

abbrev pub text : Topic → List ℕ
text t = t.name ++ b':' ∷ t.body

-- The row of the topic with index `j`.
abbrev pub row_id : ℕ → ℕ
row_id j = if ltb j 4 then j else 4 + j

pub record IsTopic (t : Topic) : Type 0 where
  pub colon : Free b':' t.name
  pub no_nul : Free 0 (text t)
  pub short : length t.name < 50
  pub fits : length (text t) < 150

-- The topics from index `j` on are `ts`.
abbrev pub TopicsFrom : Channel → ℕ → List Topic → Type 0
TopicsFrom c j [] = Unit
TopicsFrom c j (t ∷ ts) =
    (c.all_server_data j ≡ some (row_id j))
    × IsTopic t
    × Str (c.rows (row_id j)) 0 (text t)
    × TopicsFrom c (j + 1) ts

-- The server keeps exactly the topics `ts`.
pub record Holds (c : Channel) (ts : List Topic) : Type 0 where
  pub counted : c.publisher_counter ≡ length ts
  pub started : 4 ≤ length ts
  pub few : length ts ≤ 10
  pub topics : TopicsFrom c 0 ts

-- The first index from `j` on whose topic has the name.
unfoldable pub index_of : List ℕ → List Topic → ℕ → Option ℕ
index_of name [] j = none
index_of name (t ∷ ts) j = if same name t.name then some j else index_of name ts (j + 1)
