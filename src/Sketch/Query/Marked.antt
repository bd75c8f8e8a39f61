-- ===== src/Sketch/Query/Marked.antt =====
-- A sketch that is marked as queried differs in its flag alone.
use anon_graphzeppelin.Base.{◌≡◌, refl, true}
use anon_graphzeppelin.Bucket.{Hashing}
use anon_graphzeppelin.Sketch.{Statics, Sketch}
use anon_graphzeppelin.Sketch.Merge.{IsSized}
use anon_graphzeppelin.Sketch.Query.{mark_queried}
use anon_graphzeppelin.Sketch.Serial.Dense.{IsWords}

pub mark_queried-queried : (s : Sketch) → (mark_queried s).already_queried ≡ true
unfolding mark_queried
mark_queried-queried s = refl

pub mark_queried-seed : (s : Sketch) → (mark_queried s).seed ≡ s.seed
unfolding mark_queried
mark_queried-seed s = refl

pub mark_queried-IsSized : (st : Statics) (s : Sketch) → IsSized st s → IsSized st (mark_queried s)
unfolding mark_queried
mark_queried-IsSized st s p = record { a_size = p.a_size; c_size = p.c_size }

pub mark_queried-IsWords : (h : Hashing) (s : Sketch) → IsWords h s → IsWords h (mark_queried s)
unfolding mark_queried
mark_queried-IsWords h s w = record { a_words = w.a_words; c_words = w.c_words }
