-- ===== src/Lib.antt =====
-- ArchaiEngine, a game server in C++: a verification library for its parts that have logic of their
-- own. The server reads messages from TCP connections, hands them to a service, which keeps players in
-- a space, and drives everything from one timer.
--
-- The parts, and the files that model them; paths are from the root of the repository.
--
-- * The 7-bit encoding of lengths, src/bit_utils.cpp: SevenBit. write_7bit_encoded_int and
--   read_7bit_encoded_int are the functions of these names, over arrays of a given room, so that an
--   access outside an array and a shift by the width of the type or more are the result `none`.
--   SevenBit/Encode has the bounds of the writer, SevenBit/RoundTrip the reader.
-- * The framing of messages, class RecvBuffer of src/network/tcp_connection.h and .cpp: RecvBuffer. The
--   record has the fields of the class; len_round and data_round are the cases of the switch of
--   RecvBuffer::recv, recv_loop its loop and recv the method; recv_all is the sequence of reads
--   of one connection, up to a fault; handle_data of RecvBuffer/Delivered is what TcpConnection::handle_data
--   hands on in them, also before a fault. It reads lengths by read_7bit_encoded_int.
--   RecvBuffer/Parser is an independent parser that takes one byte at a time. RecvBuffer/Refine relates
--   the two; RecvBuffer/Chunks, Delivered, Frames and Limits follow from it.
-- * The streams of bytes, src/bit_stream.h and .cpp: BitStream. OutputBitStream has the bytes of its
--   buffer, so that its capacity is their number, and the position; what realloc adds is given by a
--   function of the address. write, write_short and write_string are the overloads of write for raw
--   bytes, unsigned short and strings; read, read_short and read_string those of read. Numbers are
--   little-endian. BitStream/Growth is about the writer,
--   BitStream/RoundTrip about the two together.
-- * The hierarchical timer, src/wheel_timer.h and .cpp: WheelTimer. Tasks are addresses in a store, so
--   that a deleted task is one that is no longer there; calculate_slot_index, add_timer, del_timer,
--   move_timers, run_timers, tick are the methods, and advance is update, given the milliseconds that
--   the steady clock shows to have passed. A callback is a number, and a parameter, `script`, says which
--   calls of the timer it makes; it may depend on the whole state. `failed` records a failed assert or a
--   deleted task in a slot; `dangling` that del_timer wrote into a deleted task, which the code does when it
--   is given the id of a timer that has fired. WheelTimer/Slots is the arithmetic of
--   the wheels, WheelTimer/Store the invariant, WheelTimer/Push, Steps, Turn, Higher, Tick and Steady are
--   about the parts of a tick, WheelTimer/Play and Elapsed about a timer in use.
-- * Replicated arrays, class TSyncArray of src/sync_array.h: SyncArray. The record is the vector and the
--   log; clear, insert, erase, push_back, pop_back, resize, mark_dirty, net_serialize,
--   net_delta_serialize and reset_dirty are the methods, assign a write through operator[], and replay
--   the reader of the log, the branches for it in net_delta_serialize of an InputBitStream. How an element
--   is written and read is the interface Serial. The log is a
--   BitStream, with the numbers of BitStream/Numbers. SyncArray/Changes lists the calls,
--   SyncArray/Described what they mean for a list,
--   SyncArray/Logged is about the bytes that they log, SyncArray/Replay and SyncArray/Clear about the
--   reader, SyncArray/Entries about one entry.
-- * The area of interest, src/aoi/aoi.h, src/aoi/grid_aoi.h and .cpp: GridAoi. The grids are a function
--   of the cell and the entities a list by id; the methods have their names, and `update` and `publish`
--   are the two parts of a round of `run`, on copies that are taken before. float is the interface
--   Plane. GridAoi/Cells is the invariant between grids and entities, GridAoi/Circle the search,
--   GridAoi/Queries the calls of an owner.
-- * Attributes, src/combat/attr_set.h and .cpp with the macros of src/property.h: AttrSet. float and the
--   numbers that random_01 gives are parameters; of float AttrSet/Damage asks no more than KeepsSign, on the
--   range of values that it names. AttrSet/Damage and AttrSet/Delta are about damage and
--   about the bytes for the clients.
-- * Skills, src/combat/combat_component.h and .cpp and src/combat/skill: Combat. cast_skill is the
--   method, on the attributes of AttrSet and a SyncArray of SkillInfo; messages and timers that it
--   starts are a list of effects. Combat/Cast is what a cast leaves, Combat/CoolDown what follows.
-- * The service and its space, src/space_service.cpp and .h with join, leave, update_position and
--   find_entities_in_circle of src/space.cpp: Service. login, join and leave are the handlers, enter and
--   exit are Space::join and Space::leave, on a GridAoi. Service/Sessions has the calls that connections make,
--   Service/Live, Service/InStep and Service/Names what they keep. Service/Dispatch has the parts of
--   a message, in handle_msg and in send_raw_msg of src/network/tcp_connection.cpp.
-- * The sending side of connections, class TcpConnection of src/network/tcp_connection.h and .cpp:
--   Connection. send_raw_msg, send_msg, send_data, on_error, on_lost_connection and socket_event_cb are the
--   functions of these names; a connection is the bytes given to libevent with the count of those that
--   wait, or it is deleted. Connection/Deliver joins it to RecvBuffer and Service/Dispatch at the other
--   end, Connection/Limits is about a full buffer and a failing socket.
-- * Entities, src/entity.h and .cpp with src/player.cpp, src/monster.cpp and src/icomponent.h, and
--   the part of src/combat/combat_component.cpp that writes to streams: Entity and Combat/Sync. The
--   functions have their names; those that Player and Monster override begin with kind_, those of the
--   components with component_ and combat_. Entity/Components is about the table of components,
--   Entity/Flags about the dirty flags. A MovementComponent writes its whole state for others each time,
--   moved or not, so that every update has bytes of every player and monster for them.
-- * The update of a space and its calls to clients, src/space.cpp: SpaceUpdate. sync_entities and
--   send_states are the two loops of Space::update, call_all and call_others the methods; what is sent
--   is a list. SpaceUpdate/Told is about the first loop, SpaceUpdate/Again about one update after
--   another, SpaceUpdate/Cache relates the second loop to SpaceUpdate/Plain.
-- * Movement, src/movement_component.h and .cpp with upload_movement of src/space_service.cpp: Movement.
--   upload_movement reaches the component and, through update_position, the grid; Movement/Upload is
--   about it.
-- * The walk of monsters, src/navigation_component.h and .cpp: Navigation. move_to, update and reset are
--   the methods; Navigation/Walk is about one call of update, Navigation/Calls about any sequence,
--   Navigation/Arrive about what a walk does to Movement and the grid.
-- * The queue without locks, src/util/fifo.h: Fifo. A step of a thread is one access of the shared
--   memory, which is taken to be sequentially consistent. Fifo/Places and Fifo/Alone are about calls that
--   run alone, Fifo/Queue about sequences of them, Fifo/Lag about two that overlap.
-- * The timer with a queue, src/util/queue_timer.h: QueueTimer. add_task, cancel_task and update are the
--   methods, on tasks by their ids. The declared types do not fit each other (a queue of tasks stands on
--   a vector of pointers); the comparison is read as one of the tasks pointed to. QueueTimer/Drop is
--   about a task that is not yet due.
--
-- The components share the words of Shared: Boolean tests, lists, maps, integers, results and bits.
--
-- Bounds and fuel. recv_loop has one unit of fuel for each byte of its input: a round takes a byte at
-- least, so that the loop ends before its fuel does. update_loop has as many rounds as
-- there are milliseconds left, and a round takes a frame of them. The loops of the encoding run over
-- the array. replay_loop has a unit of fuel for each byte of the log, and an operation takes one at
-- least. A uint32_t wraps at 2^32; the attributes are integers without a bound: sums
-- in add_health and add_mana that overflow int are not modelled. In the timer frames and milliseconds are numbers without a bound, since size_t does not overflow in
-- any run of the server, and so are ids, which are int in the code: fewer than 2^31 timers are added.
-- The number of slots is at least 1, for 0 the code divides by it. The difference of two frames wraps at 2^64, as in the code. The wheels are taken to have n slots with n^3 at most 2^64 (1024 here).
-- update of Navigation has a unit of fuel for each point of the path, and each call of itself goes on
-- by a point. A call of the ring that runs alone takes six steps at most. update
-- of QueueTimer has a unit of fuel for each callback that it runs: callbacks that go on to add tasks that
-- are due make its loop endless, and then no fuel is enough.
--
-- Not modelled: the assert of play_animation that a fighter who casts is in a space, and the rounds of
-- the grid's thread between the calls of the service; the streams of other types, swap and operator= of the arrays (they call net_serialize
-- with an argument too few), normal_attack and the damage of effects to others, the start and the end of
-- the thread of the area of interest, the server that accepts connections, the table of handlers and
-- those for attacks and paths, the search by sector and quaternions, which are formulas over float;
-- the other helpers of src/util, which nothing calls; src/game_server.cpp, which only starts the
-- others; src/proto, which is generated; src/Detour and src/fpm, which are copies of other libraries. In the timer, the destructor, and the wall clock.
pub mod Shared
pub mod SevenBit
pub mod BitStream
pub mod RecvBuffer
pub mod SyncArray
pub mod GridAoi
pub mod AttrSet
pub mod Combat
pub mod Service
pub mod Connection
pub mod Movement
pub mod Fifo
pub mod WheelTimer
pub mod Entity
pub mod SpaceUpdate
pub mod Navigation
pub mod QueueTimer
