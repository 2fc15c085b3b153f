-- ===== src/Lib.antt =====
-- A verification library for SABnzbd, a download client for Usenet.
--
-- The program's parts and how they interact. The queue (sabnzbd/nzbqueue.py) holds jobs (NzbObject,
-- sabnzbd/nzb/object.py) in order of priority; a job holds files (NzbFile, sabnzbd/nzb/file.py), and
-- a file articles (Article, sabnzbd/nzb/article.py). A server of the downloader asks the queue for
-- articles, the queue asks its jobs, a job its files, and a file its articles; the try lists on each
-- level say which servers were asked already. A fetched article goes to the article cache
-- (sabnzbd/articlecache.py), which keeps it in memory, writes it to its file, or to the disk cache,
-- until the assembler asks for it. The answer of a server goes through the decoder
-- (sabnzbd/decoder.py), which saves its data in the cache and registers the article with the queue; the
-- speed meter (sabnzbd/bpsmeter.py) counts the received bytes. The assembler (sabnzbd/assembler.py)
-- writes the articles of a file in order, and a job that is done goes to the post-processor
-- (sabnzbd/postproc.py).
--
-- Which file models which part:
--   Prelude      Boolean tests, lists of references, integers, association lists (the dicts).
--   Job          sabnzbd/constants.py (Status, DuplicateStatus, the priorities) and the attributes
--                of a job that the queue reads: pause, resume, set_priority, remaining.
--   Queue        sabnzbd/nzbqueue.py. Queue.State is the object: `nzo_list` and `nzo_table` are its
--                two containers, `jobs` the store of the job objects, and `effects` the calls of
--                other components in order. Queue.Place and Queue.Add: add, end_job, send_back;
--                Queue.Save: save; Queue.Sort: sort_queue; Queue.Remove: remove, fail_to_history;
--                Queue.Bulk: remove_multiple, remove_all; Queue.SetPriority: __set_priority and
--                set_priority; Queue.Switch: switch; Queue.Reads: has_forced_jobs, actives,
--                remaining, is_empty; Queue.Info: queue_info; Queue.Duplicates: the search for
--                duplicates and handle_duplicate_alternatives; Queue.Control: pauses and resumes;
--                Queue.Dispatch: get_articles, over jobs with their files as in Object.
--                Below each of them stand its proofs.
--   Cache        sabnzbd/articlecache.py. Cache.Cache is the object with its dict of articles; the
--                files of the disk cache are a dict too. Cache.Reach has its operations as steps, and
--                Cache.Store an abstract store of the data that a run of them implements.
--   Article      sabnzbd/nzb/article.py: TryList and Article, with get_article, search_new_server.
--   File         sabnzbd/nzb/file.py: NzbFile, but for its names, its sort key and its pickling.
--   Object       sabnzbd/nzb/object.py: the files of a job, its statistics and its par2 sets.
--                Object.Fetch: get_articles; Object.Par2: get_extra_blocks; Object.Progress:
--                remove_article; Object.Moves: move_up_bulk and move_down_bulk.
--   Assembler    sabnzbd/assembler.py: the queue of files and its bytes that are ready to be written,
--                and the writing: assemble, open and write, over a file that is a list of bytes.
--   PostProc     sabnzbd/postproc.py: the two queues of the thread and its loop. PostProc.Loop has
--                the moves of the thread and of the callers as steps, since the thread tests its
--                queues and clears its event in two moves. PostProc.Job: process_job and its verdict;
--                PostProc.Parring: parring.
--   BpsMeter     sabnzbd/bpsmeter.py: the counters by server and period, the quota and the speeds.
--   Decoder      sabnzbd/decoder.py: decode, with each exception.
--   Downloader   sabnzbd/downloader.py: the servers, and the timers of those that were blocked.
--   The modules named Tests hold small examples.
--
-- How the code is modelled. A job, a file, an article, a server and a set of par2 files is a number
-- (its id, or the object's identity); a store maps it to the object, so that all holders of a
-- reference see a change. Python's integers are integers (ℤ) where the code subtracts, else natural
-- numbers. A text is a list of code points, and lower case is that of ASCII. A comparison of two
-- quotients of integers is a comparison of products; the code compares floats. Methods that hold a
-- lock are single steps, and the methods without one are run alone. Loops are recursions on the list
-- that the code walks; a loop that empties a dict (the table of positions in move_up_bulk and
-- move_down_bulk, and the article table in flush_articles) takes one entry out in each round, and has
-- as many rounds as the dict has entries. The loop of the assembler's write, which repeats a write until
-- all is written, has as many rounds as there are bytes, and the system takes one at least in each.
--
-- Files on disk are read as they were written: errors of the disk are not modelled.
--
-- Parameters stand for what is not modelled: the schedule's verdict on a job (Scheduler.analyse), the
-- parser of NZB files (process_single_nzb), the settings, the admin file of a file's articles, the
-- time to wait for propagation, the likeness of two names (difflib), the assembler's answer to a
-- direct write, the renaming and sorting of a job's files (verify_all_filenames_and_resort), the tools
-- that post-processing runs and their results, the ends of the days, weeks and months, the speeds (floating
-- point), how many bytes the system takes in one write, and what sabctools read in the answer of a server.
--
-- Not modelled: log lines and messages; the queue's start from disk (read_queue, scan_jobs,
-- repair_job), the changes of options and names, register_article and stop_idle_jobs of the queue; the
-- creation of a job and its checks for duplicates; of the assembler a write that fails, the paths, the
-- checks of the disk's space and of encrypted files; of the speed meter its settings and the date of the
-- next reset; of the post-processor the tools and their output; the
-- connections and the loop of the downloader; the history, the scheduler, feeds, the configuration and
-- the interface, which are input and output for the most part.
pub mod Prelude
pub mod Job
pub mod Queue
pub mod Cache
pub mod Article
pub mod File
pub mod Object
pub mod PostProc
pub mod Assembler
pub mod BpsMeter
pub mod Decoder
pub mod Downloader
