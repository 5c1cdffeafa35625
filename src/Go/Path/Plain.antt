-- ===== src/Go/Path/Plain.antt =====
-- path.Join of elements that path.Clean keeps.
use grpc_traffic_controller.Prelude.{
  ℕ, ◌≡◌, refl, sym, ◌≢◌, ◌∙◌, ap, List, [], ◌∷◌, ◌++◌, reverse, append_assoc, append-nil, Text,
  codes, All, Lacks, arith, Bool, false, split, join, split-join, text_eq_iff,
}
use mathlib.Core.List.{reverse-cons}
use grpc_traffic_controller.Go.Path.{
  slash, clean_part, clean_parts, or_dot, clean, join_buffer, clean_unless_empty, join_path,
  IsPlain,
}

clean_part_of_IsPlain :
    (rooted : Bool) (stack : List Text) (p : Text)
    → IsPlain p
    → clean_part rooted stack p ≡ p ∷ stack
unfolding clean_part
clean_part_of_IsPlain rooted stack p h = ground (
  arith,
  text_eq_iff p [],
  text_eq_iff p (codes "."),
  text_eq_iff p (codes ".."),
  h.nonempty,
  h.not_dot,
  h.not_dots,
)

clean_parts_of_IsPlain :
    (rooted : Bool) (stack parts : List Text)
    → All IsPlain parts
    → clean_parts rooted stack parts ≡ reverse stack ++ parts
unfolding clean_parts
clean_parts_of_IsPlain rooted stack [] h = sym (append-nil _)
clean_parts_of_IsPlain rooted stack (p ∷ ps) h =
    rw (clean_part_of_IsPlain rooted stack p h.0, clean_parts_of_IsPlain rooted (p ∷ stack) ps h.1)
      (simp (reverse-cons, append_assoc))

pub All-one_part : (ps : List Text) → All IsPlain ps → All (Lacks slash) ps
All-one_part [] h = tt
All-one_part (p ∷ ps) h = (h.0.one_part, All-one_part ps h.1)

join-glue :
    (p e : Text) (es : List Text)
    → join (codes "/") ((p ++ slash ∷ e) ∷ es) ≡ join (codes "/") (p ∷ e ∷ es)
unfolding join
join-glue p e [] = refl
join-glue p e (f ∷ es) = append_assoc p (slash ∷ e) _

join_buffer-join :
    (c : ℕ) (buf : Text) (es : List Text)
    → join_buffer (c ∷ buf) es ≡ join (codes "/") ((c ∷ buf) ∷ es)
unfolding join_buffer join
join_buffer-join c buf [] = refl
join_buffer-join c buf (e ∷ es) =
    join_buffer-join c (buf ++ slash ∷ e) es ∙ join-glue (c ∷ buf) e es

join_head :
    (c : ℕ) (p : Text) (ps : List Text)
    → (rest : Text) × (join (codes "/") ((c ∷ p) ∷ ps) ≡ c ∷ rest)
unfolding join
join_head c p [] = (p, refl)
join_head c p (q ∷ ps) = (_, refl)

clean_lem :
    (c : ℕ) (s : Text)
    → c ≢ slash
    → clean (c ∷ s) ≡ or_dot (join (codes "/") (clean_parts false [] (split slash (c ∷ s))))
unfolding clean
clean_lem c s relative = ground arith

-- A relative path whose parts are all plain is its own cleaned form.
clean_relative :
    (c : ℕ) (rest : Text) (parts : List Text)
    → c ≢ slash
    → split slash (c ∷ rest) ≡ parts
    → All IsPlain parts
    → join (codes "/") parts ≡ c ∷ rest
    → clean (c ∷ rest) ≡ c ∷ rest
unfolding or_dot
clean_relative c rest parts relative divided plain joined =
    clean_lem c rest relative ∙ rw (divided, clean_parts_of_IsPlain false [] parts plain, joined)

clean_unless_empty-clean :
    (s : Text) (c : ℕ) (rest : Text) → s ≡ c ∷ rest → clean_unless_empty s ≡ clean s
unfolding clean_unless_empty
clean_unless_empty-clean [] c rest e = cc
clean_unless_empty-clean (d ∷ s) c rest e = refl

join_path_lem :
    (c : ℕ) (p : Text) (ps : List Text)
    → join_path ((c ∷ p) ∷ ps) ≡ clean (join (codes "/") ((c ∷ p) ∷ ps))
unfolding join_path
join_path_lem c p ps =
    let (rest, joined) = join_head c p ps in
    let buffer = join_buffer-join c p ps in
    clean_unless_empty-clean (join_buffer (c ∷ p) ps) c rest (buffer ∙ joined) ∙ ap clean buffer

-- path.Join of plain elements puts a slash between them and changes nothing else.
pub join_path_of_IsPlain :
    (p : Text) (ps : List Text)
    → All IsPlain (p ∷ ps)
    → join_path (p ∷ ps) ≡ join (codes "/") (p ∷ ps)
join_path_of_IsPlain [] ps h = absurd (h.0.nonempty refl)
join_path_of_IsPlain (c ∷ p) ps h =
    let (rest, joined) = join_head c p ps in
    let parts = split-join slash ((c ∷ p) ∷ ps) (cc) (All-one_part ((c ∷ p) ∷ ps) h) in
    join_path_lem c p ps
    ∙ rw (joined, clean_relative c rest ((c ∷ p) ∷ ps) h.0.one_part.0 (rw joined at parts) h joined)
