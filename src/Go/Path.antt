-- ===== src/Go/Path.antt =====
-- path.Clean and path.Join.
pub mod Plain
use grpc_traffic_controller.Prelude.{
  ℕ, ◌≢◌, ◌||◌, List, [], ◌∷◌, ◌++◌, reverse, Text, codes, Lacks, ◌==◌, if◌then◌else◌, Bool, true,
  false, text_eq, split, join,
}

abbrev pub slash : ℕ
slash = b'/'

-- The stack has the last element kept at its head. A ".." at the head has nothing before it to take
-- back, and a rooted path goes no further up than its root.
back : Bool → List Text → List Text
back true [] = []
back false [] = codes ".." ∷ []
back rooted (top ∷ below) = if text_eq top (codes "..") then codes ".." ∷ top ∷ below else below

-- One element of the path.
clean_part : Bool → List Text → Text → List Text
clean_part rooted stack part =
    if text_eq part [] || text_eq part (codes ".")
    then stack
    else if text_eq part (codes "..")
    then back rooted stack
    else part ∷ stack

clean_parts : Bool → List Text → List Text → List Text
clean_parts rooted stack [] = reverse stack
clean_parts rooted stack (part ∷ parts) = clean_parts rooted (clean_part rooted stack part) parts

or_dot : Text → Text
or_dot [] = codes "."
or_dot (c ∷ s) = c ∷ s

unfoldable pub clean : Text → Text
unfolding clean_parts clean_part back or_dot split join
clean [] = codes "."
clean (c ∷ s) =
    if c == slash
    then slash ∷ join (codes "/") (clean_parts true [] (split slash (c ∷ s)))
    else or_dot (join (codes "/") (clean_parts false [] (split slash (c ∷ s))))

-- the loop of path.Join: empty elements in front leave the buffer empty
join_buffer : Text → List Text → Text
join_buffer buf [] = buf
join_buffer [] (e ∷ es) = join_buffer e es
join_buffer (c ∷ buf) (e ∷ es) = join_buffer ((c ∷ buf) ++ (slash ∷ e)) es

clean_unless_empty : Text → Text
unfolding clean
clean_unless_empty [] = []
clean_unless_empty (c ∷ s) = clean (c ∷ s)

-- path.Join gives the empty path if every element is empty, and the buffer is then empty.
unfoldable pub join_path : List Text → Text
unfolding join_buffer clean_unless_empty
join_path es = clean_unless_empty (join_buffer [] es)

-- An element that path.Clean keeps as it is.
pub record IsPlain (p : Text) : Type 0 where
  pub nonempty : p ≢ []
  pub not_dot : p ≢ codes "."
  pub not_dots : p ≢ codes ".."
  pub one_part : Lacks slash p
