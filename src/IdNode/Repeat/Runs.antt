-- ===== src/IdNode/Repeat/Runs.antt =====
-- The theorem on repeated ids at a concrete array.
use egg.Base.{ℕ, ◌≡◌, refl, true, some, List, [], ◌∷◌, take}
use egg.Base.Int.{pos}
use egg.IdNode.{IdNode}
use egg.IdNode.Repeat.{filter_repeat}
use egg.IdNode.Repeat.Newest.{newest, filter_repeat-newest}

abbrev stamped : ℕ → ℕ → ℕ → IdNode
stamped id time flag = record {
  id = id;
  weight = pos 0;
  key_cnt = 1;
  mask = 1;
  time_stamp = time;
  flag = flag;
  boost = 0;
  reservd = [];
  pos = [];
}

abbrev later : List IdNode
later = stamped 3 20 1 ∷ stamped 5 7 0 ∷ stamped 9 1 1 ∷ []

filter_repeat-newest_example :
    (nodes : List IdNode) × (n : ℕ) × (filter_repeat (stamped 3 10 1 ∷ later)
      ≡ some (true, nodes, n))
    × (take n nodes ≡ newest (stamped 3 10 1) later)
filter_repeat-newest_example = filter_repeat-newest (stamped 3 10 1) later

-- Of two writes of one node the later stays, and a removed node is dropped.
newest-keeps : newest (stamped 3 10 1) later ≡ stamped 3 20 1 ∷ stamped 9 1 1 ∷ []
newest-keeps = refl
