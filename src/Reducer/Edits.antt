-- ===== src/Reducer/Edits.antt =====
-- Every change that a block makes to the reducer's records is an edit: the record is remembered in
-- the journal and then replaced. A block is a sequence of edits, so what one edit keeps, a block
-- keeps.
pub mod Block
pub mod Keeps
use coppice_names.Prelude.{Option}
use coppice_names.Protocol.{NameId, Commitment, CommitRef}
use coppice_names.Reducer.State.{Head, Undo, Reducer}
use coppice_names.Reducer.Records.{replace_commit, replace_head, remember_commit, remember_head}
use coppice_names.Reducer.Maintenance.{Journaled}

pub data Edit : Journaled → Journaled → Type 0 where
  replaces_head :
      (r : Reducer) (u : Undo) (id : NameId) (v : Option Head)
      → Edit (r, u) (replace_head r id v, remember_head r u id)
  keeps_head : (r : Reducer) (u : Undo) (id : NameId) → Edit (r, u) (r, remember_head r u id)
  replaces_commit :
      (r : Reducer) (u : Undo) (c : CommitRef) (v : Option Commitment)
      → Edit (r, u) (replace_commit r c v, remember_commit r u c)

pub data Edits : Journaled → Journaled → Type 0 where
  here : (s : Journaled) → Edits s s
  after : {s t w : Journaled} → Edit s t → Edits t w → Edits s w

pub Edits-trans : {s t w : Journaled} → Edits s t → Edits t w → Edits s w
Edits-trans (here s) more = more
Edits-trans (after e es) more = after e (Edits-trans es more)

-- a property of the state and its journal that each edit keeps holds after any edits
pub Edits-keep {ℓ} :
    (P : Journaled → Type ℓ)
    → ((s t : Journaled) → Edit s t → P s → P t)
    → {s t : Journaled} → Edits s t
    → P s
    → P t
Edits-keep P step (here s) p = p
Edits-keep P step (after {s} {t} e es) p = Edits-keep P step es (step s t e p)
