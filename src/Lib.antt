-- ===== src/Lib.antt =====
-- FluxDTU: the dynamic power limiter (DPL) as far as it drives one inverter, the radio that carries
-- its commands, the limiter's view of the battery, the flexible loads, and the frames of Victron
-- devices.
--
-- The power limiter decides how much AC power each Hoymiles inverter is to produce. For each one it
-- holds an object of class `PowerLimiterInverter`, which plans the output (`applyIncrease`,
-- `applyReduction`, `standby`), turns the plan into limit and power commands (`update`), and judges
-- from telemetry when a command has had its effect. The object asks the driver's object for the
-- same inverter to hand commands to the radio. Subclasses plan for battery, solar and
-- smart-buffer inverters; the last two raise the limit above the planned output where some inputs
-- are in the shade, as the overscaling calculator says.
--
-- The radio sends the commands of its queue one after another. It waits for the fragments of the
-- reply, asks for those that are missing, and hands a complete reply to the command, which checks
-- and stores it; a command whose reply does not come is sent again a number of times.
--
-- The limiter itself decides from the battery's charge or voltage whether the battery may be
-- discharged, how much current it may give for how long, and how much power the inverters may take
-- from the DC power bus; it spreads a change of power over several inverters, and has the inverters
-- restarted once a day. Flexible loads are switched on by MQTT while there is power to spare, one
-- after another in the order of their priorities. The frame handler reads what solar charge
-- controllers and battery monitors send over a serial line.
--
-- Files, and the code that each models:
--   Base                 shared names, Boolean tests, lists, machine words and exclusive or
--   Float                the `float` operations, as a parameter; `fixed` is an instance that runs
--   Hoymiles/Device      lib/Hoymiles/src/inverters/InverterAbstract.cpp and HM_Abstract.cpp:
--                        `sendActivePowerControlRequest`, `sendPowerControlRequestCompleteOnTx`,
--                        `sendRestartControlRequest`, `isProducing`, `isReachable`, `getMppts`;
--                        what a request hands to `enqueCommand` is recorded
--   Hoymiles/Handed      the calls of `enqueCommand` of Hoymiles/Radio for what was handed over
--   Hoymiles/Command     lib/Hoymiles/src/commands: the classes of commands, as the queue sees them
--   Hoymiles/Queue       lib/Hoymiles/src/queue/CommandQueue.cpp, lib/ThreadSafeQueue
--   Hoymiles/History     lib/Hoymiles/src/HoymilesRadio.cpp: the history of requests
--   Hoymiles/Radio       HoymilesRadio.h and HoymilesRadio.cpp: `enqueCommand`, `removeCommands`,
--                        `sendEsbPacket` of HoymilesRadio_NRF.cpp and HoymilesRadio_CMT.cpp
--   Hoymiles/Cycle       HoymilesRadio.cpp: `handleReceivedPackage`
--   Hoymiles/Fragments, Hoymiles/Inverter
--                        inverters/InverterAbstract.cpp: `addRxFragment`, `verifyAllFragments`
--   Hoymiles/Receive     `loop` of HoymilesRadio_NRF.cpp and HoymilesRadio_CMT.cpp
--   Hoymiles/Crc         lib/Hoymiles/src/crc.cpp
--   Hoymiles/MultiData   lib/Hoymiles/src/commands/MultiDataCommand.cpp: `handleResponse`
--   Hoymiles/RunData     commands/RealTimeRunDataCommand.cpp: `handleResponse`, with the buffer of
--                        parser/StatisticsParser.cpp
--   Hoymiles/Control     commands/ActivePowerControlCommand.cpp, DevControlCommand.cpp and
--                        PowerControlCommand.cpp: the frame of a limit command, and the handlers
--   Timeout              lib/TimeoutHelper/src/TimeoutHelper.cpp
--   Overscaling          src/OverscalingCalculator.cpp
--   Dpl/Clock            src/PowerLimiterInverter.cpp: `millisAtOrAfter`
--   Dpl/State            include/PowerLimiterInverter.h and include/Configuration.h: the fields
--   Dpl/Readings         src/PowerLimiterInverter.cpp: the queries, `getEligibility` among them
--   Dpl/Targets          the setters of the target state, and the lambda `reset` of `update`
--   Dpl/PowerState       `update`: the lambdas on power commands and on failed updates
--   Dpl/Update           the rest of `update`, one function for each lambda and each of its parts
--   Dpl/Battery, Dpl/Solar, Dpl/SmartBuffer, Dpl/Overscaling
--                        src/PowerLimiterBatteryInverter.cpp and so on: the subclasses
--   Dpl/Limits           `applyConfiguredLimitBounds` and `refreshStaleLimit`
--   Dpl/Stats            `getLatestStatsMillis` and `getOutputReferenceMillis`
--   Dpl/Restore          the runtime state that outlives a restart of the controller
--   Dpl/Control          the virtual methods, by power source; `retire`, `setMaxOutput`, `restart`
--   Dpl/Trace            every public operation, and any news from the radio, as a step
--   Limiter/State        include/PowerLimiter.h and include/Configuration.h: the limiter's fields
--   Limiter/Battery      src/PowerLimiter.cpp: the lambdas `getBatteryState` and
--                        `getFullSolarPassthrough` of `loop`, and `testThreshold`
--   Limiter/Share        `DistributedChange`, `distributeGreedyByPriority`,
--                        `rotateDistributedChanges`
--   Limiter/Current      `getConfiguredBatteryDischargeCurrentLimit`, with
--                        include/PowerLimiterBatteryCurrentLimit.h
--   Limiter/Bus          `calcPowerBusUsage`, `getBatteryDischargeLimit`
--   Limiter/Restart      `calcNextInverterRestart`, the lambda `autoRestartInverters`,
--                        `shouldRequestEmergencyFullOutput`
--   FlexibleLoad/State   include/FlexibleLoad.h and include/Configuration.h: the fields
--   FlexibleLoad/Power   src/FlexibleLoad.cpp: the queries of power, and
--                        include/FlexibleLoadAccounting.h
--   FlexibleLoad/Commands, FlexibleLoad/Judgement, FlexibleLoad/Step, FlexibleLoad/Loop
--                        the commands, the reasons to start and to stop, `loopLoad` and `loop`
--   FlexibleLoad/Restore `persistState` and `restoreState`
--   VeDirect             lib/VeDirectFrameHandler/VeDirectFrameHandler.cpp
--   VeDirectHex          lib/VeDirectFrameHandler/VeDirectFrameHexHandler.cpp: `disassembleHexData`
--   Examples             the theorems at concrete inputs
-- A module below another of these holds proofs on it.
--
-- State and operations: an object is the record `Inverter`, with the driver's object as its field
-- `device`; a method is a function that takes the object last and returns it first. A lambda of
-- `update` that captures variables takes them as arguments. `Env` holds what a call reads from
-- elsewhere: the millisecond counter, which has one value during a call, and whether it is day.
-- The radio works between two calls: there the device may change in any way.
--
-- The radio is the record `Radio`; `World` adds the inverters, by serial number. The handlers of the
-- commands, which change the parsers of an inverter, are an argument (`Handler`), and so are the
-- answers of the radio chip: whether a packet was acknowledged, and which packets it has received.
--
-- The limiter is the record `Limiter`; a round of its loop reads the record `Round`. A flexible load
-- is the record `Load` with its `Runtime`, and all loads are a list; `published` says what its last
-- command was. The order of `std::sort` is that of an insertion by priority and place. The frame
-- handler's two buffers are the bytes written so far, and what a derived class does with a record is
-- an argument (`Derived`).
--
-- Integers are natural numbers, with a width noted at each field; where the code subtracts or adds
-- below the width of `int` and stores the result, the wrap-around is written out. `float` has no
-- laws but that a conversion to 16 bits fits 16 bits, and the theorems hold for any rounding; where
-- one needs how numbers compare, or that no power gives no power, it says so as a hypothesis.
--
-- Bounds: the binary search of the calculator runs on fuel 16, since each round halves a range of
-- 16-bit limits; that this is enough is part of what is shown of it. The loop that sends a packet
-- again until it is acknowledged runs on the command's limit on attempts, which its own test makes
-- the number of its rounds.
--
-- Not modelled: log output and `debug`, the semaphores and mutexes, the getters of temperature, DC
-- voltage and queue size, and the constructor's lookup of the driver's object. Of the radio: the
-- settings of the chip and its channels, the start-up, the frames of the commands but for that of a
-- limit, the parsers but for the buffer of the statistics, and packets of length 0, whose checksum
-- would be read outside of the packet. Of the limiter: the order of priorities by temperature
-- (`prioritizeDistributedChanges`), `updateInverterLimits` and the rest of `loop`, which rest on the
-- predictive model, and that model. Of the flexible loads: the state file and its JSON. Of the frame
-- handler: `sendHexCommand` and the derived classes. The other parts of the program, such as
-- the statistics, the configuration, the chargers, the meters and the web interface, are not modelled.
pub mod Base
pub mod Float
pub mod Timeout
pub mod VeDirectHex
pub mod VeDirect
pub mod Hoymiles
pub mod Overscaling
pub mod Dpl
pub mod Limiter
pub mod FlexibleLoad
mod Examples
