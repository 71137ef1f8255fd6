-- ===== src/Resolver/Agrees.antt =====
-- Exact replay of a name and complete replay resolve the name alike.
use coppice_names.Prelude.{ℕ, ◌≡◌, ◌∙◌, refl, sym, ap, some, [], ok, arith}
use coppice_names.Collections.Order.{nat_ord, list_ord}
use coppice_names.Protocol.{Bytes, Name, NameId, Primitives, name_id}
use coppice_names.Schedule.{Parameters}
use coppice_names.Reducer.State.{Block, ProofVerifier, Reducer, BlockOutcome}
use coppice_names.Reducer.Blocks.{new, apply_block_detailed}
use coppice_names.Reducer.Indexes.{IsIndexed}
use coppice_names.Reducer.Resolution.{resolve, resolve_authenticated, head_of}
use coppice_names.Reducer.Rollback.Undoes.{apply_block-IsIndexed, new-IsIndexed}
use coppice_names.Resolver.Filter.{ExactResolver, filter_block}
use coppice_names.Resolver.Exact.{start, apply_detailed, resolve_at}
use coppice_names.Resolver.Follows.{Follows}
use coppice_names.Resolver.Replays.{apply_block-Follows}

module _ ⦃prims : Primitives⦄ where
  -- a resolver and a complete reducer that have applied the same blocks, without evidence
  pub data Replay (p : Parameters) (parent : Bytes) (v : ProofVerifier) (name : Name)
      : ExactResolver → Reducer → Type 0 where
    started :
        (x : ExactResolver) (r : Reducer)
        → start p parent name v ≡ ok x
        → new p parent v ≡ ok r
        → Replay p parent v name x r
    applied :
        (x x' : ExactResolver) (r r' : Reducer) (b : Block) (o o' : BlockOutcome)
        → Replay p parent v name x r
        → apply_detailed x b [] ≡ ok (x', o')
        → apply_block_detailed r b [] ≡ ok (r', o)
        → Replay p parent v name x' r'

  record InStep (name : Name) (x : ExactResolver) (r : Reducer) : Type 0 where
    pub same_name : x.name ≡ name
    pub identifier : name_id name ≡ ok x.name_id
    pub full : IsIndexed r
    pub exact : IsIndexed x.reducer
    pub follows : Follows x.name_id r x.reducer
    pub tips : x.reducer.tip_height ≡ r.tip_height

  tip_after :
      (r : Reducer) (b : Block) (after : Reducer) (o : BlockOutcome)
      → apply_block_detailed r b [] ≡ ok (after, o)
      → after.tip_height ≡ some b.height
  unfolding apply_block_detailed
  tip_after r b after o h = ground arith

  apply_detailed-parts :
      (x x' : ExactResolver) (b : Block) (o : BlockOutcome)
      → apply_detailed x b [] ≡ ok (x', o)
      → (apply_block_detailed x.reducer (filter_block x.name_id b) [] ≡ ok (x'.reducer, o))
        × (x'.name ≡ x.name)
        × (x'.name_id ≡ x.name_id)
  unfolding apply_detailed
  apply_detailed-parts x x' b o h = ground arith

  start-parts :
      (p : Parameters) (parent : Bytes) (name : Name) (v : ProofVerifier) (x : ExactResolver)
      → start p parent name v ≡ ok x
      → (name_id name ≡ ok x.name_id) × (new p parent v ≡ ok x.reducer) × (x.name ≡ name)
  unfolding start
  start-parts p parent name v x h = ground arith

  filter_block-height : (id : NameId) (b : Block) → (filter_block id b).height ≡ b.height
  unfolding filter_block
  filter_block-height id b = refl

  new_tip :
      (p : Parameters) (parent : Bytes) (v : ProofVerifier) (r s : Reducer)
      → new p parent v ≡ ok r
      → new p parent v ≡ ok s
      → s ≡ r
  new_tip p parent v r s h k = ground arith

  started-InStep :
      (p : Parameters) (parent : Bytes) (v : ProofVerifier) (name : Name) (x : ExactResolver)
      (r : Reducer)
      → start p parent name v ≡ ok x
      → new p parent v ≡ ok r
      → InStep name x r
  started-InStep p parent v name x r h k =
      let (named, made, same_name) = start-parts p parent name v x h in
      let e = new_tip p parent v r x.reducer k made in
      record {
        same_name = same_name;
        identifier = named;
        full = new-IsIndexed p parent v r k;
        exact = new-IsIndexed p parent v x.reducer made;
        follows = record {
          parameters = cc (e);
          verifier = cc (e);
          commits = λ c. cc (e);
          head = cc (e);
        };
        tips = cc (e);
      }

  applied-InStep :
      (name : Name) (x x' : ExactResolver) (r r' : Reducer) (b : Block) (o o' : BlockOutcome)
      → InStep name x r
      → apply_detailed x b [] ≡ ok (x', o')
      → apply_block_detailed r b [] ≡ ok (r', o)
      → InStep name x' r'
  applied-InStep name x x' r r' b o o' s ran_x ran_r =
      let (ran, same_name, same_id) = apply_detailed-parts x x' b o' ran_x in
      record {
        same_name = same_name ∙ s.same_name;
        identifier = s.identifier ∙ ap (ok) (sym same_id);
        full = apply_block-IsIndexed r b [] r' o s.full ran_r;
        exact =
            apply_block-IsIndexed x.reducer (filter_block x.name_id b) [] x'.reducer o' s.exact ran;
        follows = rw same_id (
            apply_block-Follows x.name_id r x.reducer r' x'.reducer b o o' s.full s.exact s.follows
              ran_r ran);
        tips =
            tip_after x.reducer (filter_block x.name_id b) x'.reducer o' ran
            ∙ ap (λ n. some n) (filter_block-height x.name_id b)
            ∙ sym (tip_after r b r' o ran_r);
      }

  Replay-InStep :
      (p : Parameters) (parent : Bytes) (v : ProofVerifier) (name : Name) (x : ExactResolver)
      (r : Reducer)
      → Replay p parent v name x r
      → InStep name x r
  Replay-InStep p parent v name _ _ (started x r h k) = started-InStep p parent v name x r h k
  Replay-InStep p parent v name _ _ (applied x x' r r' b o o' before ran_x ran_r) =
      applied-InStep name x x' r r' b o o' (Replay-InStep p parent v name x r before) ran_x ran_r

  head_of-Follows :
      (id : NameId) (r e : Reducer) (h : ℕ) → Follows id r e → head_of e id h ≡ head_of r id h
  unfolding head_of
  head_of-Follows id r e h f = ground (arith, f.head, f.parameters)

  resolve-Follows :
      (id : NameId) (r e : Reducer) (name : Name) (h : ℕ)
      → name_id name ≡ ok id
      → Follows id r e
      → resolve e name h ≡ resolve r name h
  unfolding resolve
  resolve-Follows id r e name h named f = rw (named, resolve) (head_of-Follows id r e h f)

  resolve_authenticated-Follows :
      (id : NameId) (r e : Reducer) (name : Name) (h : ℕ)
      → name_id name ≡ ok id
      → Follows id r e
      → e.tip_height ≡ r.tip_height
      → resolve_authenticated e name h ≡ resolve_authenticated r name h
  unfolding resolve_authenticated
  resolve_authenticated-Follows id r e name h named f tips =
      ground (arith, resolve-Follows id r e name h named f, tips, f.parameters)

  -- A resolver for a name and a complete reducer that start alike and have applied the same
  -- blocks, without evidence, give the same answer to every authenticated query for the name.
  pub resolve_at-Replay :
      (p : Parameters) (parent : Bytes) (v : ProofVerifier) (name : Name) (x : ExactResolver)
      (r : Reducer) (h : ℕ)
      → Replay p parent v name x r
      → resolve_at x h ≡ resolve_authenticated r name h
  unfolding resolve_at
  resolve_at-Replay p parent v name x r h replay =
      let s = Replay-InStep p parent v name x r replay in
      rw s.same_name
        (resolve_authenticated-Follows x.name_id r x.reducer name h s.identifier s.follows s.tips)
