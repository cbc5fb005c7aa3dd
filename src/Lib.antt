-- ===== src/Lib.antt =====
-- Log73: a logging program for amateur radio contests, whose server keeps the log, scores it and
-- looks up callsigns.
--
-- The parts and their files (paths from the repository's root):
--   Base                 Booleans, options, lists, integers of 64 bits, texts as lists of code
--                        points, and association lists for the maps.
--   QsoTime              backend/src/qso_time.rs: dates and times of contacts.
--   Callsign             backend/src/callsign.rs: the base and the modifier of a callsign.
--   Dxcc                 backend/src/dxcc.rs: `Rules` parses the records of a CTY file into entities
--                        and rules, `Prefix` finds the WPX prefix, `Lookup` the entity of a callsign.
--   Contact              backend/src/db/contact.rs: a contact is a JSON object with its metadata
--                        under one key and its ADIF fields under another.
--   GridDistance         backend/src/grid_distance.rs: distances between grid squares.
--   Bands                backend/src/bands.rs and radio-io/src/bands.rs: the band catalogue.
--   BandMap              backend/src/bandmap.rs: `Store` keeps the spots with their order in time and the
--                        indexes between ids and dedupe keys (`BandMapSpotStore`), and `Manager`
--                        brings spots from the cluster, the operator and the log into it
--                        (`BandMapManager`).
--   ContestRules         the types of scoring rules in backend/src/contest_rules.rs.
--   Scoring              backend/src/scoring.rs. `FieldValue` and `Condition` read a contact,
--                        `Points` gives its points, `Module` makes a `ScoringModule` of a contest's
--                        rules, `Scorer` scores a log with it (`ContestScorer`), and `Incremental`
--                        keeps the score while contacts are added and removed
--                        (`IncrementalLogState`, `IncrementalScoreTracker`).
--   LogCache             backend/src/log_cache.rs: `Cached` is the cached log and its indexes
--                        (`CachedLog`), and `Cache` what committed changes do to it (`LogCache`).
--   Adif                 backend/src/adif.rs: `Parse` reads a file (`parse_records`), `Import` makes
--                        contacts of its records (`import_contacts`), `Export` writes a file of
--                        the fields that `Contacts` gives for each contact (`render_log`), and
--                        `Names` has what they do with names and values. `ContactValues` says
--                        what a contact gives each field, without the map of fields.
--   RadioManager         radio-io/src/radio_manager/lifecycle.rs: the steps of the tasks that acquire
--                        and release a radio.
--   Examples             runs on small inputs.
--
-- How the parts interact: both scorers use the rules of a contest only through the record
-- `ScoringModule`, and their theorems are stated for any such module; `contest_scoring_module`
-- fills it. A contact is read and annotated through `Contact` alone. `Points` measures distances by
-- `GridDistance`, and `Callsign` gives the base call that duplicates are found by. The band map
-- reads contacts of a log and looks frequencies up in `Bands`. The log cache knows its processors,
-- of which the score tracker is one, by the record `LogCacheProcessor`.
--
-- Representation. A text is a list of code points. Case folding is that of ASCII: the source uses
-- `to_uppercase` in places, which differs on letters that callsigns and field names do not have.
-- `HashMap` and `BTreeMap` are association lists and a `HashSet` is a list of keys. Integers of
-- type i64 saturate where the source calls a saturating operation and wrap where it casts; the
-- counters of contacts are natural numbers without a bound. Floating-point arithmetic is a
-- parameter (`Floats`, and the parsers of numbers in a CTY file and of frequencies in an ADIF
-- file), as is the reader of CSV files, whose result is a list of rows, and the equality of JSON
-- objects on the band map. The band map's time now is an argument, and its locks and its
-- broadcast channel are left out. Slices of bytes in an ADIF file are cut from code points by
-- their lengths in UTF-8. The log cache is that of one log, whose calls come one after another.
-- The tasks of the radio manager take steps in any order, each up to the next point at which
-- another task can run.
--
-- Fuel. The loop over the modifiers of a CTY rule runs on the length of the text, and every turn
-- takes at least its two brackets off; so does the loop over an ADIF file, where every round
-- takes a character or more, and a sum of index and length beyond 64 bits is an error of its own.
-- A loop whose fuel is used up gives an error of its own (`out_of_fuel`), which the source has not.
-- The searches for a new owner of a key recur on the list of contacts.
--
-- Not modelled: the server's routes and tasks, the database, the loader of contest rules,
-- validation, statistics, Cabrillo files, radio control but for the counting of references, the
-- radio client, the launcher, and the browser's JavaScript. They are input and output around the
-- parts above, or are left for later.
pub mod Base
pub mod QsoTime
pub mod Callsign
pub mod Dxcc
pub mod Contact
pub mod GridDistance
pub mod ContestRules
pub mod Scoring
pub mod Examples
pub mod Bands
pub mod BandMap
pub mod LogCache
pub mod Adif
pub mod RadioManager
