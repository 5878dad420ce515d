-- ===== src/Lib.antt =====
-- DroneDevice: the protocols, containers and files of a library for devices on a serial line or a CAN
-- bus, and what holds of them.
--
-- The program. A client sends requests as frames over a serial line. `SerialHandler` feeds the bytes
-- that arrive to a `SerialParser`, which cuts frames out of them and checks their checksum, and
-- processes each message: it keeps the request in a `RequestPool` over a `Queue` and calls the hub,
-- which finds the device with the address. A device holds fields and files and answers with a call of
-- the observer, which `SerialHandler` writes back as a frame; then the request's descriptor is free
-- again. On a CAN bus a `CanProxy` stands for a remote device: it keeps the requests of its clients in
-- a list over a pool, sends them, and ends each with a response or at its deadline. A `MemoryFile` is
-- filled by an upload in pieces. A `ConfigField` is a member of a value in a `ConfigStorage`, which is
-- kept with checksums in a region of flash memory. The checksum classes come in pairs, bit by bit and
-- by tables. All of it stands under DroneDevice/Include/DroneDevice.
--
-- The files, by the code that they model:
--   Queue.antt             Queue.hpp: the ring buffer. The class is the record `Queue`, its methods are
--                          `push`, `pop` and so on; `push_all` and `pop_all` are the overloads on arrays.
--   Linked.antt            List.hpp: a linked list over an array of nodes; Linked/Erase: the proofs about
--                          its erasures.
--   Crc.antt, Crc/         Crc8.hpp, Crc16.hpp, Crc32.hpp, FastCrc8.hpp, FastCrc16.hpp, FastCrc32.hpp:
--                          one module per class, with the loop over bits or the table of the source.
--   Pool.antt              RequestPool.hpp: descriptors and the queue of the free ones; a pointer is an
--                          index.
--   Hub.antt               StaticDeviceHub.hpp: routing of requests to devices, with the outcome as data;
--                          Address.hpp: a device with its address.
--   Serial/State.antt      PayloadProtocol/SerialParser.hpp: the states of the parser.
--   Serial/Parser.antt     PayloadProtocol/SerialParser.hpp: `update` as a loop over bytes, whose body
--                          is `accept`, and `create` on the memory that it is given.
--   Serial/Stream.antt     PayloadProtocol/SerialHandler.hpp: the loop of `update`.
--   Serial/Reply.antt      PayloadProtocol/SerialHandler.hpp: the sending of responses.
--   Serial/Packet.antt     PayloadProtocol/SerialPacket.hpp: the requests, as they stand in the buffer.
--   Serial/Handler.antt    PayloadProtocol/SerialHandler.hpp: `process` and the callbacks, with the pool.
--   Serial/Exchange.antt   the handler over the hub and the devices: a message with all that it leads to.
--   Core.antt              CoreTypes.hpp, FieldInfo.hpp, FileInfo.hpp: types, sizes and results.
--   Device.antt            DeviceObserver.hpp: the calls of the observer as data.
--   Device/Field.antt      InternalDevice/AbstractField.hpp and the classes of fields.
--   Device/Internal.antt   InternalDevice/InternalDevice.hpp and FieldList.hpp: the requests to a device.
--   Config.antt            ConfigStorage.hpp, MemoryRegion.hpp: settings in flash memory.
--   Config/Fields.antt     InternalDevice/ConfigField.hpp: a field that is a member of a setting.
--   Can/Nodes.antt         PlazCan/UavCanHandler.hpp: the devices attached to a CAN bus and their turns.
--   Can/Hashes.antt        PlazCan/HashFinder.hpp: the signatures of the data types.
--   Can/Convert.antt       PlazCan/CanHelpers.hpp: integers and descriptions of fields in messages.
--   Can/Transfer.antt      PlazCan/UavCanPacket.hpp: the numbers of messages and services;
--                          PlazCan/CanHelpers.hpp: the decoding of a transfer's payload.
--   Can/Proxy/State.antt   PlazCan/CanProxy.hpp, PlazCan/ProxyRequestDescriptor.hpp: the state of a proxy,
--                          its calls of others, and the queueing of a request.
--   Can/Proxy/Client.antt  PlazCan/CanProxy.hpp: the six requests of a client.
--   Can/Proxy/Answer.antt  PlazCan/CanProxy.hpp: the responses to a client's requests.
--   Can/Proxy/Info.antt    PlazCan/CanProxy.hpp: what the proxy learns of its device, with the requests that
--                          it makes itself.
--   Can/Proxy/Receive.antt PlazCan/CanProxy.hpp: `onMessageReceived` with all that it dispatches to.
--   Can/Proxy/Expiry.antt  PlazCan/CanProxy.hpp: time outs and the ends of requests.
--   Can/Proxy/Life.antt    PlazCan/CanProxy.hpp: the constructor and the assignment of a new device.
--   Can/Proxy/Ask.antt     the six requests as one operation.
--   Can/Hub.antt           PlazCan/CanProxyHub.hpp: the addresses that are given to new devices.
--   File/MemoryFile.antt   InternalDevice/MemoryFile.hpp: a file in an array.
--   Prelude/, Bits/        Boolean tests, lists, machine words, bit operations.
--   Memory.antt            writes through pointers.
-- Below a component's file stand its proofs, in modules named for what they show, and in Tests runs on
-- concrete data.
--
-- Conventions. Numbers are natural numbers; `size_t` has 32 bits, as on the targets, and its sums and
-- differences wrap where the source's do. Bytes are numbers below 256. An operation with a failed
-- `assert` or an access outside of an array is `none`. Template arguments (`limit`, `capacity`, the
-- checksum) are arguments. A value of a template's type T is the list of its bytes. A flash memory is
-- a parameter with its documented behaviour as laws, which speak only of writes of whole words of 4
-- bytes, as the drivers assert. A value that a field reads is a list; that it fits the array of 8
-- bytes in `InternalDevice` is up to the field. In Serial/Stream.antt the reaction to a message
-- is a function `process` on a state of its own. In Can/Proxy a call of the master, of the feature or
-- of an observer is a value, and `canardDecodeScalar` is a parameter with its documented behaviour;
-- times are microseconds, each reading of the clock and the master's address are arguments, and sums of times do not overflow;
-- what runs under the mutex is one step.
--
-- Fuel. Loops over a buffer recurse on the bytes left, loops over bits on the bits left. The loop of
-- `SerialHandler::update` gets as many rounds as there are bytes in the input, since a round consumes
-- at least one. The loops over a linked list get as many rounds as there are nodes, or one more, and
-- those over the requests of a proxy one round more than the list has nodes. The search for an address
-- gets a round for each address. The search of a field by name gets one round more than there are
-- fields, which is enough for up to 255 of them.
--
-- Not modelled: the device hashes, libcanard, the devices on the CAN bus other than the proxy
-- (InternalCanDevice, ParamSlave, PlazCanSlave), the messages of CanProxyHub, the ciphers and digests,
-- the register-level drivers and the boards. A null payload of nonzero length in `create` and
-- uninitialised memory that is never read have no counterpart.
pub mod Prelude
pub mod Bits
pub mod Core
pub mod Device
pub mod Config
pub mod Can
pub mod Linked
pub mod Memory
pub mod File
pub mod Queue
pub mod Crc
pub mod Pool
pub mod Hub
pub mod Serial
