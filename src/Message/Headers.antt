-- ===== src/Message/Headers.antt =====
-- A header map as an association list: an implementation of `HeaderApi`, which shows that its laws
-- can hold. A value is valid if all its characters are tabs or printable ASCII.
use rs2_runtime.Common.{
  is_some, ◌≡◌, ◌≢◌, refl, Option, none, some, List, [], ◌∷◌, leb, ◌==◌, ◌&&◌, ◌||◌, all,
  if◌then◌else◌, arith,
}
use rs2_runtime.Common.Text.{Text, text_eq, text_eq_iff, text_eq_refl}
use rs2_runtime.Message.{HeaderApi}

abbrev pub find_header : Text → List (Text × Text) → Option Text
find_header k [] = none
find_header k ((j, v) ∷ m) = if text_eq j k then some v else find_header k m

abbrev pub put_header : Text → Text → List (Text × Text) → List (Text × Text)
put_header k v m = (k, v) ∷ m

pub find_header_self :
    (k v : Text) (m : List (Text × Text)) → find_header k (put_header k v m) ≡ some v
find_header_self k v m = rw text_eq_refl

pub find_header_ne :
    (j k v : Text) (m : List (Text × Text))
    → j ≢ k
    → find_header j (put_header k v m) ≡ find_header j m
find_header_ne j k v m h = ground (arith, text_eq_iff k j)

abbrev pub header_list : HeaderApi
header_list = record {
  Map = List (Text × Text);
  empty = [];
  get = find_header;
  contains_key = λ k m. is_some (find_header k m);
  insert = put_header;
  is_valid = all (λ c. c == 9 || (leb 32 c && leb c 126));
  get-empty = λ k. refl;
  get-contains_key = λ k v m h. rw h refl;
  get-insert_self = λ k v m h. find_header_self k v m;
  get-insert_ne = find_header_ne;
}
