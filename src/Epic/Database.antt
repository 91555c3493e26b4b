-- ===== src/Epic/Database.antt =====
-- The tables of src/specialist/observability-sqlite.ts that the epic modules read and write. A table
-- of rows with a time is the list of its rows, the newest first; a write is later than every row.
use unit_ai_specialists.Common.{
  ℕ, Bool, not, ◌&&◌, Option, List, ◌∷◌, map, String, str_eq, is_text, any, filter,
}
use unit_ai_specialists.Common.Dict.{Dict, get, set}
use unit_ai_specialists.Job.{SupervisorStatus}
use unit_ai_specialists.Epic.Lifecycle.{EpicState}
use unit_ai_specialists.Epic.Readiness.Derive.{EpicReadinessSummary}

-- `EpicTransitionAuditEntry`.
pub record AuditEntry : Type 0 where
  pub from : EpicState
  pub to : EpicState
  pub at_ms : ℕ
  pub reason : String
  pub trigger : String
  pub forced : Bool

-- An item of the array `transitions`: an object, the text of one or one that was added, or no object.
pub data Item : Type 0 where
  past no_object : String → Item
  audited : AuditEntry → Item

-- The value of a key: a text of it, the named part of a readiness summary, or what it is made of.
pub data Json : Type 0 where
  raw : String → Json
  part : EpicReadinessSummary → Json
  transitions : List Item → Json
  state : EpicState → Json
  stamp : ℕ → Json
  flag : Bool → Json

-- `status_json`: the entries of the object it holds, or a text that holds no object.
pub data StatusJson : Type 0 where
  unparsed : String → StatusJson
  object : Dict Json → StatusJson

pub record EpicRunRecord : Type 0 where
  pub epic_id : String
  pub status : EpicState
  pub updated_at_ms : ℕ
  pub status_json : StatusJson

pub record EpicChainRecord : Type 0 where
  pub chain_id : String
  pub epic_id : String
  pub chain_root_bead_id : Option String

pub record Database : Type 0 where
  pub jobs : List SupervisorStatus
  pub chains : List EpicChainRecord
  pub runs : Dict EpicRunRecord
  pub results : Dict String

abbrev pub includes_text : String → List String → Bool
includes_text s xs = any (λ x. str_eq x s) xs

unfoldable pub read_epic_run : String → Database → Option EpicRunRecord
read_epic_run id db = get id db.runs

unfoldable pub upsert_epic_run : EpicRunRecord → Database → Database
upsert_epic_run r db = record db { runs = set r.epic_id r db.runs }

unfoldable pub list_epic_chains : String → Database → List EpicChainRecord
list_epic_chains id db = filter (λ c. str_eq c.epic_id id) db.chains

unfoldable pub list_statuses : Database → List SupervisorStatus
list_statuses db = db.jobs

-- The ids of a chain's jobs, the newest first here; the callers ask only whether there are any.
unfoldable pub list_chain_job_ids : String → Database → List String
list_chain_job_ids chain db =
    filter (λ id. not (str_eq id ""))
      (map (λ j. j.id) (filter (λ j. is_text j.chain_id chain) db.jobs))

-- `job_id` is the key of the table, and the row that is written becomes the newest.
unfoldable pub upsert_status : SupervisorStatus → Database → Database
upsert_status s db = record db { jobs = s ∷ filter (λ j. not (str_eq j.id s.id)) db.jobs }

unfoldable pub read_result : String → Database → Option String
read_result id db = get id db.results

unfoldable pub delete_epic_chain_membership :
    String → List String → Database → List String × Database
unfolding list_epic_chains
delete_epic_chain_membership id chain_ids db =
    let existing = map (λ c. c.chain_id) (list_epic_chains id db) in
    (
      filter (λ c. includes_text c existing) chain_ids,
      record db {
        chains =
            filter (λ c. not (str_eq c.epic_id id && includes_text c.chain_id chain_ids)) db.chains;
      },
    )
